-- ===== src/Engine/Rollback/Outcome.antt =====
-- What a rollback leaves behind.
use proxmox_manager.Base.{
  ℕ, Rowwise, ◌≡◌, refl, sym, ◌⊎◌, inl, inr, Bool, true, false, ◌||◌, List, ◌∷◌, Bool-cases,
  Result-cases, ==_iff, ◌==◌, Result, ok, ◌>>=◌, subst,
}
use proxmox_manager.Domain.{CheckpointData, InstanceState, failed}
use proxmox_manager.Store.{Db}
use proxmox_manager.Ipam.Rows.{
  Released, SetAside, SetAside-refl, mark_quarantined-rows, release-rows,
}
use proxmox_manager.Engine.World.{
  Outside, World, Call, ask, stop, delete, wait_for_task, suspend_mapping, delete_mapping,
}
use proxmox_manager.Engine.Rollback.{
  remove_vm, stop_vm, delete_vm, remove_mapping, release_address, final_state, compensate,
}

module _ (outside : Outside) where
  -- from the calls `before` to `after` Proxmox took the deletion of the VM and reported success
  abbrev pub VmGone : CheckpointData → List Call → List Call → Type 0
  VmGone cp before after =
      (cp.vmid ≡ 0) × (after ≡ before)
      ⊎ ((calls : List Call) × (upid : ℕ) × (outside.task (delete cp.node cp.vmid ∷ calls)
            ≡ ok upid)
          × (outside.status (wait_for_task cp.node upid ∷ delete cp.node cp.vmid ∷ calls) ≡ ok true)
          × (after ≡ wait_for_task cp.node upid ∷ delete cp.node cp.vmid ∷ calls))

  abbrev Flag : (List Call → List Call → Type 0) → World → Result Bool × World → Type 0
  Flag gone w out =
      (left : Bool) × (calls : List Call) × (out ≡ (ok left, record w { calls = calls }))
      × (left ≡ false → gone w.calls calls)

  stop_vm_lem :
      (cp : CheckpointData) (w : World)
      → (calls : List Call) × (stop_vm outside cp w ≡ (ok tt, record w { calls = calls }))
  unfolding stop_vm ask
  stop_vm_lem cp w = elim (Result-cases (outside.task (stop cp.node cp.vmid ∷ w.calls))) [
    | inl (upid, e) ↦ (wait_for_task cp.node upid ∷ stop cp.node cp.vmid ∷ w.calls, rw e refl)
    | inr (_, e) ↦ (stop cp.node cp.vmid ∷ w.calls, rw e refl)
  ]

  delete_vm_lem : (cp : CheckpointData) (w : World) → Flag (VmGone cp) w (delete_vm outside cp w)
  unfolding delete_vm ask
  delete_vm_lem cp w = elim (Result-cases (outside.task (delete cp.node cp.vmid ∷ w.calls))) [
    | inl (upid, e) ↦
        let calls : List Call = wait_for_task cp.node upid ∷ delete cp.node cp.vmid ∷ w.calls in
        elim (Result-cases (outside.status calls)) [
          | inl (true, s) ↦ (false, calls, rw e (rw s refl), λ _. inr (w.calls, upid, e, s, refl))
          | inl (false, s) ↦ (true, calls, rw e (rw s refl), λ t. cc)
          | inr (_, s) ↦ (true, calls, rw e (rw s refl), λ t. cc)
        ]
    | inr (_, e) ↦ (true, delete cp.node cp.vmid ∷ w.calls, rw e refl, λ t. cc)
  ]

  remove_vm_lem : (cp : CheckpointData) (w : World) → Flag (VmGone cp) w (remove_vm outside cp w)
  unfolding remove_vm
  remove_vm_lem cp w = elim (Bool-cases (cp.vmid == 0)) [
    | inl t ↦ (false, w.calls, rw t refl, λ _. inl ((==_iff cp.vmid 0).0 t, refl))
    | inr t ↦
        let (stopped, p) = stop_vm_lem cp w in
        let (left, calls, q, gone) = delete_vm_lem cp (record w { calls = stopped }) in
        (
          left,
          calls,
          rw t (rw p q),
          λ e. elim (gone e) [ inl (z, _) ↦ cc (t, (==_iff cp.vmid 0).1 z) | inr g ↦ inr g ],
        )
  ]

  -- the gateway took the suspension and the deletion of the mapping
  abbrev pub MappingGone : CheckpointData → List Call → List Call → Type 0
  MappingGone cp before after =
      (cp.pgw_mapping_id ≡ 0) × (after ≡ before)
      ⊎ ((outside.done (suspend_mapping cp.pgw_mapping_id ∷ before) ≡ ok tt)
          × (outside.done
                (delete_mapping cp.pgw_mapping_id ∷ suspend_mapping cp.pgw_mapping_id ∷ before)
              ≡ ok tt)
          × (after ≡ delete_mapping cp.pgw_mapping_id ∷ suspend_mapping cp.pgw_mapping_id ∷ before))

  remove_mapping_lem :
      (cp : CheckpointData) (w : World) → Flag (MappingGone cp) w (remove_mapping outside cp w)
  unfolding remove_mapping ask
  remove_mapping_lem cp w = elim (Bool-cases (cp.pgw_mapping_id == 0)) [
    | inl t ↦ (false, w.calls, rw t refl, λ _. inl ((==_iff cp.pgw_mapping_id 0).0 t, refl))
    | inr t ↦
        let m : ℕ = cp.pgw_mapping_id in
        let suspended : List Call = suspend_mapping m ∷ w.calls in
        let deleted : List Call = delete_mapping m ∷ suspended in
        elim (Result-cases (outside.done suspended)) [
          | inl (_, s) ↦ elim (Result-cases (outside.done deleted)) [
            | inl (_, d) ↦ (false, deleted, rw t (rw s (rw d refl)), λ _. inr (s, d, refl))
            | inr (_, d) ↦ (true, deleted, rw t (rw s (rw d refl)), λ e. cc)
          ]
          | inr (_, s) ↦ (true, deleted, rw t (rw s refl), λ e. cc)
        ]
  ]

  -- the address after a rollback to FAILED, and after one to QUARANTINED
  abbrev pub AddressReleased : CheckpointData → Db → Db → Type 0
  AddressReleased cp db db' =
      (cp.ip_allocation_id ≡ 0) × (db' ≡ db) ⊎ Released cp.ip_allocation_id db db'

  abbrev pub AddressKept : CheckpointData → Db → Db → Type 0
  AddressKept cp db db' =
      (db' ≡ record db { allocations = db'.allocations })
      × Rowwise (SetAside cp.ip_allocation_id) db.allocations db'.allocations

  abbrev pub Compensated : CheckpointData → World → Result InstanceState × World → Type 0
  Compensated cp w out =
      ((out.0 ≡ ok failed)
        × (calls : List Call) × VmGone cp w.calls calls
        × MappingGone cp calls out.1.calls
        × AddressReleased cp w.db out.1.db)
      ⊎ ((out.0 ≡ ok InstanceState.quarantined) × AddressKept cp w.db out.1.db)

  final_state-true :
      (cp : CheckpointData) (w : World)
      → let (r, w') = final_state outside cp true w in
        (r ≡ ok InstanceState.quarantined) × AddressKept cp w.db w'.db
  unfolding final_state
  final_state-true cp w = elim (Bool-cases (cp.ip_allocation_id == 0)) [
    | inl t ↦ rw t (
      refl,
      (
        refl,
        SetAside-refl cp.ip_allocation_id ((==_iff cp.ip_allocation_id 0).0 t) w.db.allocations,
      ),
    )
    | inr t ↦ rw t (refl, mark_quarantined-rows cp.ip_allocation_id w.db)
  ]

  -- after the removals, without a failure so far and with one
  abbrev finish : CheckpointData → Bool → World → Result InstanceState × World
  finish cp left = release_address outside cp left >>= final_state outside cp

  finish-false :
      (cp : CheckpointData) (w : World)
      → let (r, w') = finish cp false w in
        (r ≡ ok failed) × (w'.calls ≡ w.calls) × AddressReleased cp w.db w'.db
        ⊎ (r ≡ ok InstanceState.quarantined) × AddressKept cp w.db w'.db
  unfolding release_address
  finish-false cp w = elim (Bool-cases (cp.ip_allocation_id == 0)) [
    | inl t ↦
        rw t
          (unfold final_state in inl (refl, refl, inl ((==_iff cp.ip_allocation_id 0).0 t, refl)))
    | inr t ↦ elim (release-rows cp.ip_allocation_id w.db) [
      | inl e ↦ rw t (rw e (inr (final_state-true cp w)))
      | inr (e, rows) ↦ rw t (rw e (unfold final_state in inl (refl, refl, inr rows)))
    ]
  ]

  finish-true :
      (cp : CheckpointData) (w : World)
      → let (r, w') = finish cp true w in
        (r ≡ ok InstanceState.quarantined) × AddressKept cp w.db w'.db
  unfolding release_address
  finish-true cp w = elim (Bool-cases (cp.ip_allocation_id == 0)) [
    | inl t ↦ rw t (final_state-true cp w)
    | inr t ↦ rw t (final_state-true cp w)
  ]

  -- A rollback's compensating actions end in one of two ways. Either in FAILED: Proxmox took the
  -- deletion of the VM and reported its success, unless the checkpoint names no VM; then the proxy
  -- gateway took the suspension and the deletion of the mapping, unless there is none; and the
  -- address, if there is one, which was RESERVED, ASSIGNED or QUARANTINED, is FREE with no owner
  -- and no times but this one. Or in QUARANTINED, the address not released, but QUARANTINED if it
  -- is in use. Nothing else of the database changes. A VM whose deletion is answered by an error,
  -- that of a missing VM included, ends in QUARANTINED.
  pub compensate_lem :
      (cp : CheckpointData) (w : World) → Compensated cp w (compensate outside cp w)
  unfolding compensate
  compensate_lem cp w =
      let (vm_left, calls, p, vm) = remove_vm_lem cp w in
      let without_vm : World = record w { calls = calls } in
      let (mapping_left, calls', q, mapping) = remove_mapping_lem cp without_vm in
      rw p (rw q (settled vm_left mapping_left calls calls' vm mapping))
    where
      settled :
          (a b : Bool) (c d : List Call)
          → (a ≡ false → VmGone cp w.calls c)
          → (b ≡ false → MappingGone cp c d)
          → Compensated cp w (finish cp (a || b) (record w { calls = d }))
      settled false false c d v m = elim (finish-false cp (record w { calls = d })) [
        | inl (r, same, kept) ↦
            inl (r, c, v refl, subst (λ x. MappingGone cp c x) (sym same) (m refl), kept)
        | inr k ↦ inr k
      ]
      settled false true c d v m = inr (finish-true cp (record w { calls = d }))
      settled true b c d v m = inr (finish-true cp (record w { calls = d }))
