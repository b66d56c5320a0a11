-- ===== src/Engine/Quarantine/Kept.antt =====
-- A quarantine keeps what a rollback deletes.
use proxmox_manager.Base.{
  ℕ, Rowwise, ==_iff, ◌≡◌, refl, ◌∙◌, inl, inr, Bool, true, false, not, ◌&&◌, List, ◌∷◌, Bool-cases,
  Result-cases, ◌==◌, count_where, Result, ok,
}
use proxmox_manager.Domain.{CheckpointData, VmInstance, ProvisioningJob, InstanceState}
use proxmox_manager.Store.{Db, with_tx}
use proxmox_manager.Instances
use proxmox_manager.Ipam
use proxmox_manager.Ipam.Rows.{SetAside, SetAside-refl, mark_quarantined-rows}
use proxmox_manager.Engine.World.{
  Outside, World, Call, ask, stop, delete, delete_mapping, suspend_mapping, wait_for_task,
}
use proxmox_manager.Engine.Step.{append_audit}
use proxmox_manager.Engine.Step.Transition.{update_state_lem, update_checkpoint_lem}
use proxmox_manager.Engine.Quarantine.{suspend, stop_vm, keep_address, record_quarantine, execute}

abbrev pub is_deletion : Call → Bool
is_deletion (delete _ _) = true
is_deletion (delete_mapping _) = true
is_deletion _ = false

abbrev pub deletions : List Call → ℕ
deletions calls = count_where is_deletion calls

-- nothing but calls, and no deletion among them
abbrev Harmless : World → Result (Unit {0}) × World → Type 0
Harmless w out =
    (calls : List Call) × (out ≡ (ok tt, record w { calls = calls }))
    × (deletions calls ≡ deletions w.calls)

record_quarantine-allocations :
    (inst : VmInstance) (job : ProvisioningJob) (db : Db)
    → (record_quarantine inst job db).1.allocations ≡ db.allocations
unfolding record_quarantine with_tx append_audit
record_quarantine-allocations inst job db =
    elim (update_state_lem inst.id InstanceState.quarantined db) [
      | inl a ↦ rw a refl
      | inr a ↦
          elim (update_checkpoint_lem job.id InstanceState.quarantined job.checkpoint_data
            (Instances.update_state inst.id InstanceState.quarantined db).1) [
              | inl c ↦ rw a (rw (rw a at c) refl)
              | inr c ↦ rw a (rw (rw a at c) refl)
            ]
    ]

module _ (outside : Outside) where
  suspend-Harmless : (cp : CheckpointData) (w : World) → Harmless w (suspend outside cp w)
  unfolding suspend ask count_where
  suspend-Harmless cp w = elim (Bool-cases (cp.pgw_mapping_id == 0)) [
    | inl m ↦ (w.calls, rw m refl, refl)
    | inr m ↦ (suspend_mapping cp.pgw_mapping_id ∷ w.calls, rw m refl, refl)
  ]

  stop_vm-Harmless :
      (wanted : Bool) (cp : CheckpointData) (w : World) → Harmless w (stop_vm outside wanted cp w)
  unfolding stop_vm ask count_where
  stop_vm-Harmless wanted cp w =
      let stopped : List Call = stop cp.node cp.vmid ∷ w.calls in
      elim (Bool-cases (wanted && not (cp.vmid == 0))) [
        | inr m ↦ (w.calls, rw m refl, refl)
        | inl m ↦ elim (Result-cases (outside.task stopped)) [
          | inl (upid, e) ↦ (wait_for_task cp.node upid ∷ stopped, rw m (rw e refl), refl)
          | inr (_, e) ↦ (stopped, rw m (rw e refl), refl)
        ]
      ]

  -- A quarantine asks for no deletion, of a VM or of a mapping, whatever the answers to its calls.
  -- It gives no address up: the address that the checkpoint names becomes QUARANTINED if it is
  -- RESERVED or ASSIGNED, with its owner and its times as they were, and every other address is as
  -- it was.
  pub execute_keeps :
      (inst : VmInstance) (job : ProvisioningJob) (wanted : Bool) (w : World)
      → let w' = (execute outside inst job wanted w).1 in
        (deletions w'.calls ≡ deletions w.calls)
        × Rowwise (SetAside job.checkpoint_data.ip_allocation_id) w.db.allocations w'.db.allocations
  unfolding execute keep_address
  execute_keeps inst job wanted w =
      let cp : CheckpointData = job.checkpoint_data in
      let (calls, p, d) = suspend-Harmless cp w in
      let (calls', q, d') = stop_vm-Harmless wanted cp (record w { calls = calls }) in
      elim (Bool-cases (cp.ip_allocation_id == 0)) [
        | inl m ↦ rw p (
            rw q (
              rw m (
                d' ∙ d,
                rw (record_quarantine-allocations inst job w.db) (
                    SetAside-refl cp.ip_allocation_id ((==_iff cp.ip_allocation_id 0).0 m)
                      w.db.allocations),
              )))
        | inr m ↦ rw p (
            rw q (
              rw m (
                d' ∙ d,
                rw
                    (record_quarantine-allocations inst job
                      (Ipam.mark_quarantined cp.ip_allocation_id w.db).1)
                    (mark_quarantined-rows cp.ip_allocation_id w.db).1,
              )))
      ]
