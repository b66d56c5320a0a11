-- ===== src/Jobs/Exclusion.antt =====
-- A lease excludes the other workers.
use proxmox_manager.Base.{
  ℕ, String, ◌≡◌, ◌≢◌, refl, sym, subst, ◌∙◌, Bool, true, false, inl, inr, Option, none, some, List,
  arith, Unique, In, All-intro, same_row, count_where-none, find-append, find-update_where,
  Option-cases, Bool-cases, ==_iff, update_where, count_where, find, ◌==◌, ◌&&◌, if◌then◌else◌, err,
  lease_lost, not_found, Error,
}
use proxmox_manager.Domain.{ProvisioningJob}
use proxmox_manager.Store.{Db}
use proxmox_manager.Jobs
use proxmox_manager.Jobs.{
  eligible, has_id, claimed, holds, lease_expired, may_requeue, requeued, update_required,
  holds_lease, extended, completed, failed_job, reclaimed, checkpointed,
}
use proxmox_manager.Jobs.Queue.{
  Action, create, claim, heartbeat, complete, fail, reclaim, requeue, checkpoint, pass_time, apply,
  releases,
}
use proxmox_manager.Jobs.Claim.{job_key, claim-writes}

-- the row of job k, held by worker w in the given attempt
abbrev pub Held : ℕ → ℕ → ℕ → Db → Type 0
Held k w attempt db =
    (j : ProvisioningJob) × (find (has_id k) db.jobs ≡ some j)
    × ((holds k w j ≡ true) × (j.attempt ≡ attempt))

module _ (k w : ℕ) (j : ProvisioningJob) where
  abbrev Good : ProvisioningJob → Type 0
  Good j' = (holds k w j' ≡ true) × (j'.attempt ≡ j.attempt)

  module _ (p : ProvisioningJob → Bool) (f : ProvisioningJob → ProvisioningJob)
      (keep : (x : ProvisioningJob) → (f x).id ≡ x.id) (good : Good j)
      (hit : p j ≡ true → Good (f j)) where
    Held-update_where :
        (xs : List ProvisioningJob)
        → find (has_id k) xs ≡ some j
        → (j' : ProvisioningJob) × (find (has_id k) (update_where p f xs) ≡ some j') × Good j'
    Held-update_where xs e = elim (Bool-cases (p j)) [
      | inl t ↦ (f j, found ∙ rw t refl, hit t)
      | inr t ↦ (j, found ∙ rw t refl, good)
    ]
      where
        found : find (has_id k) (update_where p f xs) ≡ some (if p j then f j else j)
        found = find-update_where p (has_id k) f (λ x. rw (keep x) refl) xs ∙ rw e refl

    Held-update_required :
        (error : Error) (db : Db)
        → find (has_id k) db.jobs ≡ some j
        → (j' : ProvisioningJob) × (find (has_id k) (update_required error p f db).1.jobs ≡ some j')
          × Good j'
    unfolding update_required
    Held-update_required error db e = elim (Bool-cases (count_where p db.jobs == 0)) [
      | inl t ↦ rw t (j, e, good)
      | inr t ↦ rw t (Held-update_where db.jobs e)
    ]

-- The WHERE of Claim and of the job's release by others does not fit a held row.
holds-not_eligible :
    (k w now : ℕ) (j : ProvisioningJob) → holds k w j ≡ true → eligible now j ≡ false
unfolding holds eligible
holds-not_eligible k w now j h = ground arith

holds-not_requeuable :
    (k w k' : ℕ) (j : ProvisioningJob) → holds k w j ≡ true → may_requeue k' j ≡ false
unfolding holds may_requeue
holds-not_requeuable k w k' j h = ground arith

holds_other :
    (k w k' w' : ℕ) (j : ProvisioningJob)
    → holds k w j ≡ true
    → ((k' == k) && (w' == w)) ≡ false
    → holds k' w' j ≡ false
unfolding holds
holds_other k w k' w' j h d = ground arith

holds_lease-false :
    (k w now : ℕ) (j : ProvisioningJob) → holds k w j ≡ false → holds_lease k w now j ≡ false
unfolding holds_lease
holds_lease-false k w now j h = ground arith

holds-id : (k w : ℕ) (j : ProvisioningJob) → holds k w j ≡ true → j.id ≡ k
unfolding holds
holds-id k w j h = ground arith

chosen-ne-held :
    (k w : ℕ) (db : Db) (j c : ProvisioningJob)
    → Unique job_key db.jobs
    → find (has_id k) db.jobs ≡ some j
    → holds k w j ≡ true
    → In c db.jobs
    → eligible db.now c ≡ true
    → has_id c.id j ≡ false
chosen-ne-held k w db j c u e h m el = elim (Bool-cases (has_id c.id j)) [
  | inl t ↦
      let same : c ≡ j =
        same_row job_key db.jobs k u e m (sym ((==_iff j.id c.id).0 t) ∙ holds-id k w j h) in
      cc (holds-not_eligible k w db.now c (rw same h), el)
  | inr t ↦ t
]

module _ (k w : ℕ) (db : Db) (j : ProvisioningJob) (u : Unique job_key db.jobs)
    (e : find (has_id k) db.jobs ≡ some j) (h : holds k w j ≡ true) where
  abbrev Kept : Db → Type 0
  Kept db' = Held k w j.attempt db'

  Kept-claim : (w' lease : ℕ) → Kept (Jobs.claim w' lease db).1
  Kept-claim w' lease = elim (claim-writes w' lease db) [
    | inl same ↦ rw same (j, e, (h, refl))
    | inr (c, ch, wrote) ↦ rw wrote (
        Held-update_where k w j (has_id c.id) (claimed w' lease db.now)
          (λ x. unfold claimed in refl) (h, refl)
          (λ t. cc (t, chosen-ne-held k w db j c u e h ch.is_row ch.fits)) db.jobs e)
  ]

  Kept-requeue : (k' : ℕ) → Kept (Jobs.requeue k' db).1
  unfolding Jobs.requeue
  Kept-requeue k' = elim (Bool-cases (count_where (may_requeue k') db.jobs == 0)) [
    | inl t ↦ elim (Option-cases (find (has_id k') db.jobs)) [
      | inl p ↦ rw t (rw p (j, e, (h, refl)))
      | inr (_, p) ↦ rw t (rw p (j, e, (h, refl)))
    ]
    | inr t ↦ elim (Option-cases (find (has_id k') written)) [
      | inl p ↦ rw t (rw p kept)
      | inr (_, p) ↦ rw t (rw p kept)
    ]
  ]
    where
      written : List ProvisioningJob
      written = update_where (may_requeue k') (requeued db.now) db.jobs

      kept : Kept (record db { jobs = written })
      kept =
          Held-update_where k w j (may_requeue k') (requeued db.now) (λ x. refl) (h, refl)
            (λ t. cc (t, holds-not_requeuable k w k' j h)) db.jobs e

-- While job ids are unique: a job that worker w holds under a lease that has not expired stays
-- with w, RUNNING and in the same attempt, through every action of the queue but the Complete or
-- Fail of that job by w itself.
pub apply-Held :
    (k w : ℕ) (db : Db) (j : ProvisioningJob) (a : Action)
    → Unique job_key db.jobs
    → find (has_id k) db.jobs ≡ some j
    → holds k w j ≡ true
    → lease_expired db.now j ≡ false
    → releases k w a ≡ false
    → Held k w j.attempt (apply a db)
unfolding apply
apply-Held k w db j (create i op s) u e h fresh r =
    unfold Jobs.create in (j, find-append (has_id k) db.jobs _ j e, (h, refl))
apply-Held k w db j (claim w' lease) u e h fresh r = Kept-claim k w db j u e h w' lease
apply-Held k w db j (heartbeat k' w' ext) u e h fresh r =
    unfold Jobs.heartbeat in
    Held-update_required k w j (holds_lease k' w' db.now) (extended ext db.now) (λ x. refl)
      (h, refl) (λ t. (unfold holds in h, refl)) lease_lost db e
apply-Held k w db j (complete k' w') u e h fresh r =
    unfold Jobs.complete in
    Held-update_required k w j (holds k' w') (completed db.now) (λ x. refl) (h, refl)
      (λ t. cc (t, holds_other k w k' w' j h r)) lease_lost db e
apply-Held k w db j (fail k' w' code none) u e h fresh r =
    unfold Jobs.fail in
    Held-update_required k w j (holds k' w') (failed_job none code db.now) (λ x. refl) (h, refl)
      (λ t. cc (t, holds_other k w k' w' j h r)) lease_lost db e
apply-Held k w db j (fail k' w' code (some at)) u e h fresh r =
    unfold Jobs.fail in
    Held-update_required k w j (holds k' w') (failed_job (some at) code db.now) (λ x. refl)
      (h, refl) (λ t. cc (t, holds_other k w k' w' j h r)) lease_lost db e
apply-Held k w db j reclaim u e h fresh r =
    unfold Jobs.reclaim_expired_leases in
    Held-update_where k w j (lease_expired db.now) reclaimed (λ x. refl) (h, refl)
      (λ t. cc (t, fresh)) db.jobs e
apply-Held k w db j (requeue k') u e h fresh r = Kept-requeue k w db j u e h k'
apply-Held k w db j (checkpoint k' s d) u e h fresh r =
    unfold Jobs.update_checkpoint in
    Held-update_required k w j (has_id k') (checkpointed s d) (λ x. refl) (h, refl)
      (λ t. (unfold holds in h, refl)) not_found db e
apply-Held k w db j (pass_time d) u e h fresh r = (j, e, (h, refl))

module _ (k w w' : ℕ) (db : Db) (j : ProvisioningJob) (u : Unique job_key db.jobs)
    (e : find (has_id k) db.jobs ≡ some j) (h : holds k w j ≡ true) (d : w ≢ w') where
  not_held : (i : ProvisioningJob) → In i db.jobs → holds k w' i ≡ false
  not_held i m = elim (Bool-cases (holds k w' i)) [
    | inl t ↦
        let same : i ≡ j = same_row job_key db.jobs k u e m (holds-id k w' i t) in
        let t' : holds k w' j ≡ true = subst (λ x. holds k w' x ≡ true) same t in
        cc (t', holds_other k w k w' j h (ground arith))
    | inr t ↦ t
  ]

  holds-none : count_where (holds k w') db.jobs ≡ 0
  holds-none = count_where-none (holds k w') db.jobs (All-intro _ db.jobs not_held)

  holds_lease-none : count_where (holds_lease k w' db.now) db.jobs ≡ 0
  holds_lease-none =
      count_where-none (holds_lease k w' db.now) db.jobs
        (All-intro _ db.jobs (λ i m. holds_lease-false k w' db.now i (not_held i m)))

  -- While worker w holds a job, the Heartbeat, Complete and Fail of that job by another worker
  -- report ErrLeaseLost and change nothing.
  others-lease_lost :
      (ext : ℕ) (code : String) (retry_at : Option ℕ)
      → (Jobs.heartbeat k w' ext db ≡ (err lease_lost, db))
        × (Jobs.complete k w' db ≡ (err lease_lost, db))
        × (Jobs.fail k w' code retry_at db ≡ (err lease_lost, db))
  others-lease_lost ext code retry_at = (
    unfold Jobs.heartbeat in rw holds_lease-none refl,
    unfold Jobs.complete in rw holds-none refl,
    unfold Jobs.fail in rw holds-none refl,
  )
