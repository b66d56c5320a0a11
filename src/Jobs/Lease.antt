-- ===== src/Jobs/Lease.antt =====
-- What holds of every row: a job has an owner and an expiry exactly while it is RUNNING.
use proxmox_manager.Base.{
  ℕ, String, ◌≡◌, refl, Bool, true, Option, none, some, arith, All, All-update_where, All-append,
  Bool-cases, Option-cases, is_some, update_where, count_where, ◌==◌, find, Error, inl, inr,
}
use proxmox_manager.Domain.{ProvisioningJob, is_running}
use proxmox_manager.Store.{Db}
use proxmox_manager.Jobs
use proxmox_manager.Jobs.{
  update_required, reclaimed, requeued, failed_job, claimed, has_id, may_requeue,
}
use proxmox_manager.Jobs.Claim.{claim-writes}
use proxmox_manager.Jobs.Queue.{
  Action, create, claim, heartbeat, complete, fail, reclaim, requeue, checkpoint, pass_time, apply,
}

pub record IsConsistent (j : ProvisioningJob) : Type 0 where
  pub owner : is_some j.lease_owner ≡ is_running j.state
  pub expiry : is_some j.lease_expires_at ≡ is_running j.state

abbrev pub AllConsistent : Db → Type 0
AllConsistent db = All IsConsistent db.jobs

module _ (p : ProvisioningJob → Bool) (f : ProvisioningJob → ProvisioningJob) where
  All-write :
      ((j : ProvisioningJob) → p j ≡ true → IsConsistent j → IsConsistent (f j))
      → (db : Db) → AllConsistent db
      → All IsConsistent (update_where p f db.jobs)
  All-write keep db h = All-update_where IsConsistent IsConsistent p f keep (λ j _ c. c) db.jobs h

  update_required-AllConsistent :
      (e : Error)
      → ((j : ProvisioningJob) → p j ≡ true → IsConsistent j → IsConsistent (f j))
      → (db : Db) → AllConsistent db
      → AllConsistent (update_required e p f db).1
  unfolding update_required
  update_required-AllConsistent e keep db h = elim (Bool-cases (count_where p db.jobs == 0)) [
    | inl t ↦ rw t h
    | inr t ↦ rw t (All-write keep db h)
  ]

claimed-IsConsistent :
    (w lease now : ℕ) (j : ProvisioningJob) → IsConsistent (claimed w lease now j)
unfolding claimed
claimed-IsConsistent w lease now j = record { owner = refl; expiry = refl }

failed_job-IsConsistent :
    (r : Option ℕ) (code : String) (now : ℕ) (j : ProvisioningJob)
    → IsConsistent (failed_job r code now j)
failed_job-IsConsistent none code now j = record { owner = refl; expiry = refl }
failed_job-IsConsistent (some t) code now j = record { owner = refl; expiry = refl }

claim-AllConsistent :
    (w lease : ℕ) (db : Db) → AllConsistent db → AllConsistent (Jobs.claim w lease db).1
claim-AllConsistent w lease db h = elim (claim-writes w lease db) [
  | inl e ↦ rw e h
  | inr (c, _, e) ↦ rw e (All-write _ _ (λ j _ _. claimed-IsConsistent w lease db.now j) db h)
]

requeue-AllConsistent : (k : ℕ) (db : Db) → AllConsistent db → AllConsistent (Jobs.requeue k db).1
unfolding Jobs.requeue
requeue-AllConsistent k db h = elim (Bool-cases (count_where (may_requeue k) db.jobs == 0)) [
  | inl t ↦ elim (Option-cases (find (has_id k) db.jobs)) [
    | inl p ↦ rw t (rw p h)
    | inr (j, p) ↦ rw t (rw p h)
  ]
  | inr t ↦
      let db' : Db = record db { jobs = update_where (may_requeue k) (requeued db.now) db.jobs } in
      let h' : AllConsistent db' =
        All-write _ _ (λ j _ _. record { owner = refl; expiry = refl }) db h in
      elim (Option-cases (find (has_id k) db'.jobs)) [
        | inl p ↦ rw t (rw p h')
        | inr (j, p) ↦ rw t (rw p h')
      ]
]

-- Every operation on the queue keeps this: each job has a lease owner and a lease expiry exactly
-- while it is RUNNING.
pub apply-AllConsistent : (a : Action) (db : Db) → AllConsistent db → AllConsistent (apply a db)
unfolding apply
apply-AllConsistent (create i op s) db h =
    unfold Jobs.create in
    All-append IsConsistent db.jobs _ h (record { owner = refl; expiry = refl }, tt)
apply-AllConsistent (claim w lease) db h = claim-AllConsistent w lease db h
apply-AllConsistent (heartbeat k w ext) db h =
    unfold Jobs.heartbeat in
    update_required-AllConsistent _ _ _ (λ j p c. unfold Jobs.holds_lease in ground arith) db h
apply-AllConsistent (complete k w) db h =
    unfold Jobs.complete in
    update_required-AllConsistent _ _ _ (λ j _ _. record { owner = refl; expiry = refl }) db h
apply-AllConsistent (fail k w code r) db h =
    unfold Jobs.fail in
    update_required-AllConsistent _ _ _ (λ j _ _. failed_job-IsConsistent r code db.now j) db h
apply-AllConsistent reclaim db h =
    unfold Jobs.reclaim_expired_leases in
    All-write _ _ (λ j _ _. record { owner = refl; expiry = refl }) db h
apply-AllConsistent (requeue k) db h = requeue-AllConsistent k db h
apply-AllConsistent (checkpoint k s d) db h =
    unfold Jobs.update_checkpoint in
    update_required-AllConsistent _ _ _ (λ j _ c. record { owner = c.owner; expiry = c.expiry }) db
      h
apply-AllConsistent (pass_time d) db h = h
