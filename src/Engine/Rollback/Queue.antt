-- ===== src/Engine/Rollback/Queue.antt =====
-- A rollback leaves the job queue alone but for the checkpoint.
use proxmox_manager.Base.{
  ℕ, ◌≡◌, refl, ◌∙◌, inl, inr, Bool, List, ◌∷◌, false, ◌&&◌, not, ◌||◌, Bool-cases, Result-cases,
  ◌==◌, Result, ok, err, count_where, update_where,
}
use proxmox_manager.Domain.{VmInstance, ProvisioningJob, InstanceState, CheckpointData}
use proxmox_manager.Store.{Db, with_tx}
use proxmox_manager.Jobs
use proxmox_manager.Instances
use proxmox_manager.Ipam
use proxmox_manager.Engine.World.{Outside, World, Call, ask, on_db, stop, delete}
use proxmox_manager.Engine.Step.{append_audit}
use proxmox_manager.Engine.Step.Transition.{update_state_lem}
use proxmox_manager.Engine.Rollback.{
  wait_stopped, wait_deleted, stop_vm, delete_vm, remove_vm, remove_mapping, release_address,
  final_state, compensate, record_rollback, execute,
}
use proxmox_manager.Engine.Advance.{
  queue_at, IsKept-refl, IsKept-eq, IsKept-checkpoint, Keeps, Keeps-bind, Keeps-if,
}
use proxmox_manager.Engine.Advance.Handlers.{Keeps-pure}
use proxmox_manager.Engine.Advance.Gates.{mark_quarantined-IsKept}

Keeps-release : (k : ℕ) → Keeps (on_db (Ipam.release k))
unfolding Ipam.release Ipam.update_required
Keeps-release k w = elim (Bool-cases (count_where (Ipam.releasable k) w.db.allocations == 0)) [
  | inl e ↦ rw e (IsKept-refl w.db)
  | inr e ↦ rw e (IsKept-eq w.db _ refl refl)
]

module _ (outside : Outside) (cp : CheckpointData) where
  Keeps-wait_stopped : (r : Result ℕ) → Keeps (wait_stopped outside cp.node r)
  unfolding ask
  Keeps-wait_stopped (ok upid) w = IsKept-refl w.db
  Keeps-wait_stopped (err _) w = IsKept-refl w.db

  Keeps-wait_deleted : (r : Result ℕ) → Keeps (wait_deleted outside cp.node r)
  unfolding ask
  Keeps-wait_deleted (ok upid) w = IsKept-refl w.db
  Keeps-wait_deleted (err _) w = IsKept-refl w.db

  Keeps-stop_vm : Keeps (stop_vm outside cp)
  unfolding stop_vm ask
  Keeps-stop_vm w =
      let calls : List Call = stop cp.node cp.vmid ∷ w.calls in
      Keeps-wait_stopped (outside.task calls) (record w { calls = calls })

  Keeps-delete_vm : Keeps (delete_vm outside cp)
  unfolding delete_vm ask
  Keeps-delete_vm w =
      let calls : List Call = delete cp.node cp.vmid ∷ w.calls in
      Keeps-wait_deleted (outside.task calls) (record w { calls = calls })

  Keeps-remove_vm : Keeps (remove_vm outside cp)
  unfolding remove_vm
  Keeps-remove_vm =
      Keeps-if (not (cp.vmid == 0)) _ _
        (Keeps-bind (stop_vm outside cp) (λ _. delete_vm outside cp) Keeps-stop_vm
          (λ _. Keeps-delete_vm))
        (Keeps-pure false)

  Keeps-remove_mapping : Keeps (remove_mapping outside cp)
  unfolding remove_mapping ask
  Keeps-remove_mapping =
      Keeps-if (not (cp.pgw_mapping_id == 0)) _ _ (λ w. IsKept-refl w.db) (Keeps-pure false)

  Keeps-release_address : (failures : Bool) → Keeps (release_address outside cp failures)
  unfolding release_address
  Keeps-release_address failures =
      Keeps-if (not (cp.ip_allocation_id == 0) && not failures) _ _
        (Keeps-release cp.ip_allocation_id) (Keeps-pure failures)

  Keeps-final_state : (failures : Bool) → Keeps (final_state outside cp failures)
  unfolding final_state
  Keeps-final_state failures =
      Keeps-if failures _ _
        (Keeps-if (not (cp.ip_allocation_id == 0)) _ _
          (λ w. mark_quarantined-IsKept cp.ip_allocation_id w.db)
          (Keeps-pure InstanceState.quarantined))
        (Keeps-pure InstanceState.failed)

  Keeps-compensate : Keeps (compensate outside cp)
  unfolding compensate
  Keeps-compensate = Keeps-bind (remove_vm outside cp) _ Keeps-remove_vm (λ vm_left.
      Keeps-bind (remove_mapping outside cp) _ Keeps-remove_mapping (λ mapping_left.
        Keeps-bind (release_address outside cp (vm_left || mapping_left)) _
          (Keeps-release_address (vm_left || mapping_left)) Keeps-final_state))

record_rollback-queue :
    (outside : Outside) (inst : VmInstance) (job : ProvisioningJob) (s : InstanceState) (db : Db)
    (k : ℕ)
    → queue_at k (record_rollback outside inst job s db).1 ≡ queue_at k db
unfolding with_tx append_audit
record_rollback-queue outside inst job s db k =
    let mid : Db = record db {
      instances = update_where (Instances.has_id inst.id) (Instances.in_state s) db.instances;
    } in
    elim (update_state_lem inst.id s db) [
      | inl e ↦ rw e refl
      | inr e ↦ elim (Result-cases (Jobs.update_checkpoint job.id s job.checkpoint_data mid).0) [
        | inl (_, r) ↦ rw e (rw r ((IsKept-checkpoint job.id s job.checkpoint_data mid).queue k))
        | inr (_, r) ↦ rw e (rw r refl)
      ]
    ]

-- A rollback leaves every row of the queue as it was, but for its checkpoint.
pub execute-queue :
    (outside : Outside) (inst : VmInstance) (job : ProvisioningJob) (w : World) (k : ℕ)
    → queue_at k (execute outside inst job w).1.db ≡ queue_at k w.db
unfolding execute
execute-queue outside inst job w k =
    let w' : World = (compensate outside job.checkpoint_data w).1 in
    let kept : queue_at k w'.db ≡ queue_at k w.db =
      (Keeps-compensate outside job.checkpoint_data w).queue k in
    elim (Result-cases (compensate outside job.checkpoint_data w).0) [
      | inl (s, r) ↦ elim (Result-cases (record_rollback outside inst job s w'.db).0) [
        | inl (_, q) ↦ rw r (rw q (record_rollback-queue outside inst job s w'.db k ∙ kept))
        | inr (_, q) ↦ rw r (rw q (record_rollback-queue outside inst job s w'.db k ∙ kept))
      ]
      | inr (_, r) ↦ rw r kept
    ]
