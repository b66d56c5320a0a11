-- ===== src/Worker/Process/Settled.antt =====
-- How a job that its worker holds ends: completed, put back with a delay, or given up.
use mathlib.Core.Option
use mathlib.Core.Option.{some-injective, some-ne-none}
use proxmox_manager.Base.{
  count_where-row, any, Result, ok, err, true, false, Bool-cases, inl, inr, refl, ℕ, String, ◌≡◌,
  ap, ◌∙◌, sym, ◌⊎◌, Option, none, some, find, count_where, find-update_where, Option-cases,
  Result-cases, lease_lost, ◌<◌, ltb→lt, ◌==◌, ltb, subst,
}
use proxmox_manager.Domain.{InstanceState, JobState, ProvisioningJob, VmInstance, succeeded}
use proxmox_manager.Store.{Db}
use proxmox_manager.Jobs
use proxmox_manager.Alerts
use proxmox_manager.Instances
use proxmox_manager.Engine.World.{Outside, World}
use proxmox_manager.Engine.Rollback
use proxmox_manager.Engine.Rollback.Queue.{execute-queue}
use proxmox_manager.Engine.Advance.{bare, queue_at}
use proxmox_manager.Worker.{
  is_quarantined, incomplete_alert, alerted, terminal_state, terminal_fail, fail_or_retry,
}

-- the state and the lease of a row
abbrev pub standing : ProvisioningJob → JobState × Option ℕ
standing j = (j.state, j.lease_owner)

abbrev pub standing_at : ℕ → Db → Option (JobState × Option ℕ)
standing_at k db = Option.map standing (find (Jobs.has_id k) db.jobs)

map-bare :
    (o : Option ProvisioningJob) → Option.map standing (Option.map bare o) ≡ Option.map standing o
map-bare none = refl
map-bare (some j) = refl

pub standing-queue :
    (k : ℕ) (db db' : Db) → queue_at k db' ≡ queue_at k db → standing_at k db' ≡ standing_at k db
standing-queue k db db' e =
    sym (map-bare (find (Jobs.has_id k) db'.jobs))
    ∙ ap (Option.map standing) e
    ∙ map-bare (find (Jobs.has_id k) db.jobs)

-- the worker's job is its row, but for the checkpoint, and the worker holds it
pub record Holding (worker : ℕ) (job : ProvisioningJob) (db : Db) : Type 0 where
  pub row : queue_at job.id db ≡ some (bare job)
  pub lease : Jobs.holds job.id worker job ≡ true

-- the job is completed with its instance in a final state, or waits for one of the attempts that
-- it has left, or is given up; no worker holds it
abbrev pub Ended : ProvisioningJob → Db → Type 0
Ended job db =
    ((standing_at job.id db ≡ some (succeeded, none))
      × (inst : VmInstance) × (find (Instances.has_id job.instance_id) db.instances ≡ some inst)
      × (terminal_state inst.state ≡ true))
    ⊎ (standing_at job.id db ≡ some (JobState.retry_wait, none)) × (job.attempt < job.max_attempts)
    ⊎ (standing_at job.id db ≡ some (JobState.failed, none))

-- an alert leaves the jobs alone
alerted-jobs :
    (id_text : ℕ → String) (inst : VmInstance) (r : Result InstanceState) (w : World)
    → (alerted id_text inst (r, w)).db.jobs ≡ w.db.jobs
unfolding Alerts.upsert
alerted-jobs id_text inst (err _) w = refl
alerted-jobs id_text inst (ok s) w = elim (Bool-cases (is_quarantined s)) [
  | inr q ↦ rw q refl
  | inl q ↦
      let a : Alerts.NewAlert = incomplete_alert (id_text inst.id) in
      elim (Bool-cases (any (Alerts.has_fingerprint a.fingerprint) w.db.alerts)) [
        | inl t ↦ rw q (rw t refl)
        | inr t ↦ rw q (rw t refl)
      ]
]

module _ (worker : ℕ) (job : ProvisioningJob) where
  held_row :
      (db : Db)
      → Holding worker job db
      → (j : ProvisioningJob) × (find (Jobs.has_id job.id) db.jobs ≡ some j)
        × (Jobs.holds job.id worker j ≡ true)
  unfolding Jobs.holds
  held_row db h = elim (Option-cases (find (Jobs.has_id job.id) db.jobs)) [
    | inl e ↦ absurd (some-ne-none (bare job) (sym h.row ∙ ap (Option.map bare) e))
    | inr (j, e) ↦
        let same : bare job ≡ bare j =
          some-injective (bare job) (bare j) (sym h.row ∙ ap (Option.map bare) e) in
        (j, e, subst (λ b. Jobs.holds job.id worker b ≡ true) same h.lease)
  ]

  -- an UPDATE of the worker's row takes place
  held-update :
      (f : ProvisioningJob → ProvisioningJob) (s : JobState × Option ℕ) (db : Db)
      → ((x : ProvisioningJob) → (f x).id ≡ x.id)
      → ((x : ProvisioningJob) → standing (f x) ≡ s)
      → Holding worker job db
      → ((Jobs.update_required lease_lost (Jobs.holds job.id worker) f db).0 ≡ ok tt)
        × (standing_at job.id (Jobs.update_required lease_lost (Jobs.holds job.id worker) f db).1
            ≡ some s)
  unfolding Jobs.update_required
  held-update f s db keeps to h =
      let (j, e, held) = held_row db h in
      let some_row : (count_where (Jobs.holds job.id worker) db.jobs == 0) ≡ false =
        count_where-row (Jobs.has_id job.id) (Jobs.holds job.id worker) db.jobs j e held in
      rw some_row (
        refl,
        ap (Option.map standing) (
              find-update_where (Jobs.holds job.id worker) (Jobs.has_id job.id) f
                (λ x. ap (λ i. i == job.id) (keeps x)) db.jobs)
            ∙ rw e (rw held (ap some (to j))),
      )

  pub fail-standing :
      (code : String) (db : Db)
      → Holding worker job db
      → ((Jobs.fail job.id worker code none db).0 ≡ ok tt)
        × (standing_at job.id (Jobs.fail job.id worker code none db).1
            ≡ some (JobState.failed, none))
  unfolding Jobs.fail
  fail-standing code db =
      held-update (Jobs.failed_job none code db.now) _ db (λ x. refl) (λ x. refl)

  retry-standing :
      (code : String) (at : ℕ) (db : Db)
      → Holding worker job db
      → standing_at job.id (Jobs.fail job.id worker code (some at) db).1
        ≡ some (JobState.retry_wait, none)
  unfolding Jobs.fail
  retry-standing code at db h =
      (held-update (Jobs.failed_job (some at) code db.now) _ db (λ x. refl) (λ x. refl) h).1

  pub complete-standing :
      (db : Db)
      → Holding worker job db
      → standing_at job.id (Jobs.complete job.id worker db).1 ≡ some (succeeded, none)
  unfolding Jobs.complete
  complete-standing db h = (held-update (Jobs.completed db.now) _ db (λ x. refl) (λ x. refl) h).1

  pub terminal_fail-standing :
      (id_text : ℕ → String) (outside : Outside) (inst : VmInstance) (code : String) (w : World)
      → Holding worker job w.db
      → standing_at job.id (terminal_fail id_text outside worker job inst code w).db
        ≡ some (JobState.failed, none)
  unfolding terminal_fail
  terminal_fail-standing id_text outside inst code w h =
      let (done, e) = fail-standing code w.db h in
      let w' : World = record w { db = (Jobs.fail job.id worker code none w.db).1 } in
      rw done (
        ap (λ js. Option.map standing (find (Jobs.has_id job.id) js))
          (alerted-jobs id_text inst (Rollback.execute outside inst job w').0
            (Rollback.execute outside inst job w').1)
        ∙ standing-queue job.id w'.db (Rollback.execute outside inst job w').1.db
            (execute-queue outside inst job w' job.id)
        ∙ e)

  pub fail_or_retry-Ended :
      (id_text : ℕ → String) (outside : Outside) (to_int64 random : ℕ → ℕ) (code : String)
      (w : World)
      → Holding worker job w.db
      → Ended job (fail_or_retry id_text outside to_int64 random worker job code w).db
  unfolding fail_or_retry
  fail_or_retry-Ended id_text outside to_int64 random code w h =
      elim (Bool-cases (ltb job.attempt job.max_attempts)) [
        | inl t ↦ rw t (inr (inl (retry-standing code _ w.db h, ltb→lt _ _ t)))
        | inr t ↦ elim (Result-cases (Instances.get job.instance_id w.db).0) [
          | inl (inst, r) ↦
              rw t (rw r (inr (inr (terminal_fail-standing id_text outside inst code w h))))
          | inr (_, r) ↦ rw t (rw r (inr (inr (fail-standing code w.db h).1)))
        ]
      ]
