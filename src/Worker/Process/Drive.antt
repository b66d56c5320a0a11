-- ===== src/Worker/Process/Drive.antt =====
-- The worker's loop ends, and leaves no job in the worker's hands.
use mathlib.Core.Option
use mathlib.Core.Option.{some-injective, some-ne-none}
use proxmox_manager.Base.{
  ℕ, zero, suc, ◌<◌, ◌≤◌, ◌≡◌, refl, sym, ap, ◌∙◌, subst, inl, inr, true, Option, none, some, find,
  find-eq-some, ==_iff, Bool-cases, Option-cases, Result, arith, count_where, ◌==◌,
}
use proxmox_manager.Domain.{InstanceState, ProvisioningJob, VmInstance}
use proxmox_manager.Store.{Db}
use proxmox_manager.Jobs
use proxmox_manager.Instances
use proxmox_manager.Engine.World.{World}
use proxmox_manager.Engine.Step.{step}
use proxmox_manager.Engine.Advance.{
  ◌⟶◌, accept, reserve, clone, configure, bind, boot, identify, refuse_identity, prove,
  refuse_egress, serve, refuse_workload, bare, queue_at,
}
use proxmox_manager.Engine.Advance.Registry.{wire_engine}
use proxmox_manager.Engine.Advance.Refined.{instance_at, Refines, stuck, moved, wired_step_lem}
use proxmox_manager.Worker.{terminal_state}
use proxmox_manager.Worker.Process.{
  Slot, refreshed, drive, process_job, after_step, is_invalid_transition, is_supported,
}
use proxmox_manager.Worker.Process.Settled.{
  Holding, Ended, complete-standing, terminal_fail-standing, fail_or_retry-Ended, fail-standing,
}

-- the steps that are left at most
abbrev pub rank : InstanceState → ℕ
rank InstanceState.requested = 9
rank InstanceState.reserving = 8
rank InstanceState.cloning = 7
rank InstanceState.configuring = 6
rank InstanceState.network_binding = 5
rank InstanceState.booting = 4
rank InstanceState.waiting_guest = 3
rank InstanceState.validating_egress = 2
rank InstanceState.applying_workload = 1
rank _ = 0

abbrev pub rank_at : Option VmInstance → ℕ
rank_at none = 0
rank_at (some inst) = rank inst.state

rank-falls : (x s : InstanceState) → x ⟶ s → rank s < rank x
rank-falls x s accept = omega arith
rank-falls x s reserve = omega arith
rank-falls x s clone = omega arith
rank-falls x s configure = omega arith
rank-falls x s bind = omega arith
rank-falls x s boot = omega arith
rank-falls x s identify = omega arith
rank-falls x s refuse_identity = omega arith
rank-falls x s prove = omega arith
rank-falls x s refuse_egress = omega arith
rank-falls x s serve = omega arith
rank-falls x s refuse_workload = omega arith

rank-bounded : (x : InstanceState) → rank x ≤ 9
rank-bounded x = ground arith

complete-instances :
    (k worker : ℕ) (db : Db) → (Jobs.complete k worker db).1.instances ≡ db.instances
unfolding Jobs.complete Jobs.update_required
complete-instances k worker db =
    elim (Bool-cases (count_where (Jobs.holds k worker) db.jobs == 0)) [
      | inl e ↦ rw e refl
      | inr e ↦ rw e refl
    ]

Holding-bare :
    (worker : ℕ) (j job : ProvisioningJob) (db : Db)
    → bare j ≡ bare job
    → Holding worker job db
    → Holding worker j db
unfolding Jobs.holds
Holding-bare worker j job db same h = record {
  row = ap (λ b. queue_at b.id db) same ∙ h.row ∙ ap some (sym same);
  lease = subst (λ b. Jobs.holds b.id worker b ≡ true) (sym same) h.lease;
}

module _ (slot : Slot) where
  abbrev pub Finishes : ProvisioningJob → Option World → Type 0
  Finishes job out = (w : World) × (out ≡ some w) × Ended job w.db

  abbrev Drives : ℕ → Type 0
  Drives fuel =
      (job : ProvisioningJob) (w : World)
      → Holding slot.worker job w.db
      → rank_at (instance_at job.instance_id w.db) < fuel
      → Finishes job (drive slot fuel job w)

  -- the loop goes on with the row of the same job
  refreshed-Finishes :
      (fuel : ℕ) (job : ProvisioningJob) (w : World)
      → Drives fuel
      → Holding slot.worker job w.db
      → rank_at (instance_at job.instance_id w.db) < fuel
      → Finishes job (refreshed slot (drive slot fuel) (Jobs.get job.id w.db).0 w)
  unfolding Jobs.get
  refreshed-Finishes fuel job w next h lt =
      elim (Option-cases (find (Jobs.has_id job.id) w.db.jobs)) [
        | inl e ↦ absurd (some-ne-none (bare job) (sym h.row ∙ ap (Option.map bare) e))
        | inr (j, e) ↦
            let same : bare j ≡ bare job =
              some-injective (bare j) (bare job) (ap (Option.map bare) (sym e) ∙ h.row) in
            let goes : Finishes j (drive slot fuel j w) =
              next j w (Holding-bare slot.worker j job w.db same h)
                (subst (λ b. rank_at (instance_at b.instance_id w.db) < fuel) (sym same) lt) in
            let (w', d, ended) = goes in (w', rw e d, subst (λ b. Ended b w'.db) same ended)
      ]

  after_step-Finishes :
      (fuel : ℕ) (job : ProvisioningJob) (w : World) (inst : VmInstance)
      → Drives fuel
      → Holding slot.worker job w.db
      → rank_at (instance_at job.instance_id w.db) < suc fuel
      → (out : Result InstanceState × World) → Refines job w out
      → Finishes job (after_step slot (drive slot fuel) job inst out)
  after_step-Finishes fuel job w inst next h lt out (stuck e w' kept) =
      let h' : Holding slot.worker job w'.db = record {
        row = kept.queue job.id ∙ h.row;
        lease = h.lease;
      } in
      elim (Bool-cases (is_invalid_transition e)) [
        | inl t ↦ rw t (
          _,
          refl,
          inr (
              inr (
                terminal_fail-standing slot.worker job slot.id_text slot.wiring.outside inst
                  "NO_HANDLER" w' h')),
        )
        | inr t ↦ rw t (
          _,
          refl,
          fail_or_retry-Ended slot.worker job slot.id_text slot.wiring.outside slot.to_int64
              slot.random "STEP_FAILED" w' h',
        )
      ]
  after_step-Finishes fuel job w inst next h lt out (moved before s w' edge found adv) =
      let h' : Holding slot.worker job w'.db = record {
        row = adv.queue job.id ∙ h.row;
        lease = h.lease;
      } in
      let same : before.id ≡ job.instance_id =
        (==_iff before.id job.instance_id).0
          (find-eq-some (Instances.has_id job.instance_id) w.db.instances before found) in
      let (after, e, state, _) = adv.here in
      let now : rank_at (instance_at job.instance_id w'.db) ≡ rank s =
        ap (λ k. rank_at (instance_at k w'.db)) (sym same) ∙ ap rank_at e ∙ ap rank state in
      let was : rank_at (instance_at job.instance_id w.db) ≡ rank before.state = ap rank_at found in
      let falls : rank s < rank before.state = rank-falls before.state s edge in
      refreshed-Finishes fuel job w' next h' (omega arith)

  drive-Finishes : (fuel : ℕ) → Drives fuel
  unfolding drive Instances.get
  drive-Finishes zero job w h lt = absurd (omega arith)
  drive-Finishes (suc fuel) job w h lt = elim (Option-cases (instance_at job.instance_id w.db)) [
    | inl e ↦ rw e (
      _,
      refl,
      fail_or_retry-Ended slot.worker job slot.id_text slot.wiring.outside slot.to_int64 slot.random
          "LOAD_INSTANCE_FAILED" w h,
    )
    | inr (inst, e) ↦ elim (Bool-cases (terminal_state inst.state)) [
      | inl t ↦ rw e (
          rw t (
            _,
            refl,
            inl (
              complete-standing slot.worker job w.db h,
              inst,
              ap (find (Instances.has_id job.instance_id))
                    (complete-instances job.id slot.worker w.db)
                  ∙ e,
              t,
            ),
          ))
      | inr t ↦ rw e (
          rw t (
            after_step-Finishes fuel job w inst (drive-Finishes fuel) h lt
              (step (wire_engine slot.wiring) job w) (wired_step_lem slot.wiring job w)))
    ]
  ]

  -- Where nothing else writes meanwhile: a worker that holds a job, read from its row, is done with
  -- it within ten rounds of its loop, and then holds it no more: the job is completed with its
  -- instance in READY or QUARANTINED, or it waits for one of the attempts that it has left, or it
  -- is given up as FAILED.
  pub process_job_lem :
      (job : ProvisioningJob) (w : World)
      → find (Jobs.has_id job.id) w.db.jobs ≡ some job
      → Jobs.holds job.id slot.worker job ≡ true
      → (w' : World) × (process_job slot 10 job w ≡ some w') × Ended job w'.db
  unfolding process_job
  process_job_lem job w row lease =
      let h : Holding slot.worker job w.db = record {
        row = ap (Option.map bare) row;
        lease = lease;
      } in
      elim (Bool-cases (is_supported job.operation)) [
        | inl t ↦
            rw t (drive-Finishes 10 job w h (rank_at-bounded (instance_at job.instance_id w.db)))
        | inr t ↦
            rw t
              (_, refl, inr (inr (fail-standing slot.worker job "UNSUPPORTED_OPERATION" w.db h).1))
      ]
    where
      rank_at-bounded : (o : Option VmInstance) → rank_at o < 10
      rank_at-bounded none = omega arith
      rank_at-bounded (some inst) =
          let b : rank inst.state ≤ 9 = rank-bounded inst.state in omega arith
