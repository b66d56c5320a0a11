-- ===== src/Engine/Provision/Retry.antt =====
-- The clone of a VM over a retry of its job.
use proxmox_manager.Base.{
  ℕ, ◌≡◌, refl, ap, ◌∙◌, inl, inr, Bool, true, false, some, List, ◌∷◌, Bool-cases, Option-cases,
  Result-cases, ◌==◌, find, count_where, update_where, ok, count_where-found, find-update_where,
  find-eq-some,
}
use proxmox_manager.Domain.{CheckpointData, ProvisioningJob, VmInstance, Template}
use proxmox_manager.Jobs
use proxmox_manager.Templates
use proxmox_manager.Engine.World.{
  Outside, World, Call, ask, TransitionContext, cloning_checkpoint, clone, wait_for_task, get_vm,
}
use proxmox_manager.Engine.Provision.{cloning_handler, clone_once, await_task, accept_clone}
use proxmox_manager.Engine.Step.{context}

abbrev pub is_clone : Call → Bool
is_clone (clone _ _ _) = true
is_clone _ = false

abbrev pub clones : List Call → ℕ
clones calls = count_where is_clone calls

module _ (outside : Outside) where
  accept_clone-keeps :
      (tpl : Template) (cp : CheckpointData) (w : World)
      → let w' = (accept_clone outside tpl cp w).1 in
        (w'.db ≡ w.db) × (clones w'.calls ≡ clones w.calls)
  unfolding accept_clone await_task ask count_where
  accept_clone-keeps tpl cp w =
      let waited : List Call = wait_for_task cp.node cp.clone_task_upid ∷ w.calls in
      elim (Result-cases (outside.status waited)) [
        | inl (true, e) ↦ elim (Result-cases (outside.running (get_vm cp.node cp.vmid ∷ waited))) [
          | inl (_, r) ↦ rw e (rw r (refl, refl))
          | inr (_, r) ↦ rw e (rw r (refl, refl))
        ]
        | inl (false, e) ↦ rw e (refl, refl)
        | inr (_, e) ↦ rw e (refl, refl)
      ]

  -- with the task in the checkpoint, no clone
  no_clone :
      (t : TransitionContext) (w : World)
      → (t.job.checkpoint_data.clone_task_upid == 0) ≡ false
      → clones (cloning_handler outside t w).1.calls ≡ clones w.calls
  unfolding cloning_handler clone_once Templates.get
  no_clone t w h = elim (Bool-cases (t.job.checkpoint_data.vmid == 0)) [
    | inl z ↦ rw z refl
    | inr z ↦
        elim (Option-cases (find (Templates.has_id t.instance_row.template_id) w.db.templates)) [
          | inl e ↦ rw z (rw e refl)
          | inr (tpl, e) ↦
              rw z (
                rw e (rw h (accept_clone-keeps tpl (cloning_checkpoint t.job.checkpoint_data) w).1))
        ]
  ]

  module _ (inst : VmInstance) (job row : ProvisioningJob) (tpl : Template) (upid : ℕ) (w : World)
      (placed : (job.checkpoint_data.vmid == 0) ≡ false)
      (fresh : job.checkpoint_data.clone_task_upid ≡ 0)
      (template : find (Templates.has_id inst.template_id) w.db.templates ≡ some tpl)
      (stored : find (Jobs.has_id job.id) w.db.jobs ≡ some row)
      (task : outside.task
          (clone tpl.pve_template_vmid job.checkpoint_data.node job.checkpoint_data.vmid ∷ w.calls)
        ≡ ok upid) where
    abbrev cloned : CheckpointData
    cloned = record (cloning_checkpoint job.checkpoint_data) { clone_task_upid = upid }

    abbrev saved : World
    saved = record {
      db = record w.db {
        jobs = update_where (Jobs.has_id job.id) (Jobs.checkpointed inst.state cloned) w.db.jobs;
      };
      calls =
          clone tpl.pve_template_vmid job.checkpoint_data.node job.checkpoint_data.vmid ∷ w.calls;
    }

    save_lem : Jobs.update_checkpoint job.id inst.state cloned w.db ≡ (ok tt, saved.db)
    unfolding Jobs.update_checkpoint Jobs.update_required
    save_lem = rw (count_where-found (Jobs.has_id job.id) w.db.jobs row stored) refl

    run_lem : cloning_handler outside (context inst job) w ≡ accept_clone outside tpl cloned saved
    unfolding cloning_handler clone_once Templates.get ask
    run_lem = rw placed (rw template (rw fresh (rw task (rw save_lem refl))))

    found_after :
        find (Jobs.has_id job.id) (cloning_handler outside (context inst job) w).1.db.jobs
        ≡ some (Jobs.checkpointed inst.state cloned row)
    found_after =
        ap (λ x. find (Jobs.has_id job.id) x.1.db.jobs) run_lem
        ∙ ap (λ x. find (Jobs.has_id job.id) x.jobs) (accept_clone-keeps tpl cloned saved).0
        ∙ find-update_where (Jobs.has_id job.id) (Jobs.has_id job.id)
            (Jobs.checkpointed inst.state cloned) (λ x. refl) w.db.jobs
        ∙ rw (stored, find-eq-some (Jobs.has_id job.id) w.db.jobs row stored) refl

    -- Where the job's checkpoint names a VM and no clone task, its template and its row
    -- exist, and Proxmox answers Clone with a task that is not empty: whatever comes of that
    -- step from CLONING, the job's row holds the task, and a step for the row, at any later
    -- time, calls no second clone.
    pub clone_once_lem :
        (upid == 0) ≡ false
        → (later : World)
        → let row' = Jobs.checkpointed inst.state cloned row in
          (find (Jobs.has_id job.id) (cloning_handler outside (context inst job) w).1.db.jobs
            ≡ some row')
          × (clones (cloning_handler outside (context inst row') later).1.calls
              ≡ clones later.calls)
    clone_once_lem issued later = (
      found_after,
      no_clone (context inst (Jobs.checkpointed inst.state cloned row)) later issued,
    )
