-- ===== src/Jobs/Claim.antt =====
-- Claim, as a client sees it.
use proxmox_manager.Base.{
  ℕ, ◌+◌, ◌≤◌, ◌<◌, ◌≡◌, refl, true, false, ◌⊎◌, inl, inr, ◌↔◌, ◌∙◌, arith, Option, none, some, All,
  Unique, In, find-Unique, find-update_where, All-intro, All-In, &&-eq-true, leb, update_where-one,
  Result, ◌==◌, Option-cases, ==_refl, select_where, update_where, find, first_by, IsChosen,
  first_by-IsChosen, first_by-none, ok, err, not_claimable,
}
use proxmox_manager.Domain.{ProvisioningJob, JobState, is_waiting}
use proxmox_manager.Store.{Db, with_tx}
use proxmox_manager.Jobs
use proxmox_manager.Jobs.{eligible, precedes, has_id, claimed}
use proxmox_manager.Jobs.Selection.{precedes-IsPreorder}

abbrev pub job_key : ProvisioningJob → ℕ
job_key j = j.id

abbrev pub after_claim : ℕ → ℕ → ProvisioningJob → Db → Db
after_claim w lease c db = record db {
  jobs = update_where (has_id c.id) (claimed w lease db.now) db.jobs;
}

module _ (w lease : ℕ) (db : Db) where
  claim-none :
      first_by precedes (select_where (eligible db.now) db.jobs) ≡ none
      → Jobs.claim w lease db ≡ (err not_claimable, db)
  unfolding Jobs.claim with_tx
  claim-none p = rw p

  claim-some :
      (c : ProvisioningJob)
      → Unique job_key db.jobs
      → first_by precedes (select_where (eligible db.now) db.jobs) ≡ some c
      → Jobs.claim w lease db ≡ (ok (claimed w lease db.now c), after_claim w lease c db)
  unfolding Jobs.claim with_tx Jobs.get
  claim-some c u p = rw p (rw found refl)
    where
      row : In c db.jobs
      row = (first_by-IsChosen precedes precedes-IsPreorder (eligible db.now) db.jobs c p).is_row

      found :
          find (has_id c.id) (update_where (has_id c.id) (claimed w lease db.now) db.jobs)
          ≡ some (claimed w lease db.now c)
      found =
          rw
            (
              find-update_where (has_id c.id) (has_id c.id) (claimed w lease db.now)
                  (λ x. unfold claimed in refl) db.jobs,
              find-Unique job_key db.jobs c.id u row refl,
              ==_refl c.id,
            )
            refl

claim-row :
    (w lease : ℕ) (db : Db)
    → Unique job_key db.jobs
    → (Jobs.claim w lease db ≡ (err not_claimable, db))
        × All (λ j. eligible db.now j ≡ false) db.jobs
      ⊎ ((c : ProvisioningJob) × IsChosen (eligible db.now) precedes db.jobs c
          × (Jobs.claim w lease db ≡ (ok (claimed w lease db.now c), after_claim w lease c db)))
claim-row w lease db u =
    elim (Option-cases (first_by precedes (select_where (eligible db.now) db.jobs))) [
      | inl p ↦ inl (claim-none w lease db p, first_by-none precedes (eligible db.now) db.jobs p)
      | inr (c, p) ↦ inr (
        c,
        first_by-IsChosen precedes precedes-IsPreorder (eligible db.now) db.jobs c p,
        claim-some w lease db c u p,
      )
    ]

-- a job that is due, QUEUED or in RETRY_WAIT
abbrev pub IsEligible : ℕ → ProvisioningJob → Type 0
IsEligible now j =
    (j.next_attempt_at ≤ now) × ((j.state ≡ JobState.queued) ⊎ (j.state ≡ JobState.retry_wait))

-- a higher priority, or the same one and not younger
abbrev pub GoesBefore : ProvisioningJob → ProvisioningJob → Type 0
GoesBefore a b =
    (b.priority < a.priority) ⊎ ((a.priority ≡ b.priority) × (a.created_at ≤ b.created_at))

-- the row under the lease; the time of the first start is kept
abbrev pub leased : ℕ → ℕ → ℕ → ℕ → ProvisioningJob → ProvisioningJob
leased worker expiry attempt started j = record j {
  state = JobState.running;
  lease_owner = some worker;
  lease_expires_at = some expiry;
  attempt = attempt;
  started_at = some started;
}

abbrev pub Started : Option ℕ → ℕ → ℕ → Type 0
Started none now started = started ≡ now
Started (some t) now started = started ≡ t

waiting_iff :
    (s : JobState) → (is_waiting s ≡ true) ↔ ((s ≡ JobState.queued) ⊎ (s ≡ JobState.retry_wait))
waiting_iff JobState.queued = (λ _. inl refl, λ _. refl)
waiting_iff JobState.retry_wait = (λ _. inr refl, λ _. refl)
waiting_iff JobState.running = (λ h. cc, λ h. elim h [ inl e ↦ cc | inr e ↦ cc ])
waiting_iff JobState.succeeded = (λ h. cc, λ h. elim h [ inl e ↦ cc | inr e ↦ cc ])
waiting_iff JobState.failed = (λ h. cc, λ h. elim h [ inl e ↦ cc | inr e ↦ cc ])
waiting_iff JobState.cancelled = (λ h. cc, λ h. elim h [ inl e ↦ cc | inr e ↦ cc ])

eligible-IsEligible : (now : ℕ) (j : ProvisioningJob) → eligible now j ≡ true → IsEligible now j
unfolding eligible
eligible-IsEligible now j h =
    let (due, waits) = &&-eq-true (leb j.next_attempt_at now) (is_waiting j.state) h in
    (ground arith, (waiting_iff j.state).0 waits)

IsEligible-eligible : (now : ℕ) (j : ProvisioningJob) → IsEligible now j → eligible now j ≡ true
unfolding eligible
IsEligible-eligible now j (due, waits) =
    let w : is_waiting j.state ≡ true = (waiting_iff j.state).1 waits in ground arith

precedes-GoesBefore : (a b : ProvisioningJob) → precedes a b ≡ true → GoesBefore a b
unfolding precedes
precedes-GoesBefore a b h = ground arith

claimed-leased :
    (w lease now : ℕ) (j : ProvisioningJob)
    → (started : ℕ) × Started j.started_at now started
      × (claimed w lease now j ≡ leased w (now + lease) (j.attempt + 1) started j)
unfolding claimed
claimed-leased w lease now j = elim (Option-cases j.started_at) [
  | inl e ↦ (now, rw e refl, rw e refl)
  | inr (t, e) ↦ (t, rw e refl, rw e refl)
]

-- Where job ids are unique, Claim either reports ErrNotClaimable, no job being eligible (QUEUED or
-- RETRY_WAIT with next_attempt_at not in the future) and nothing changed; or there is an eligible
-- job that goes before every eligible job, by a higher priority or else by age: it is returned as
-- it is after the claim, RUNNING with the worker's lease from now on and one more attempt, started
-- now unless it was started before, and every other row of the table of jobs is as it was.
pub claim_lem :
    (w lease : ℕ) (db : Db)
    → Unique job_key db.jobs
    → (Jobs.claim w lease db ≡ (err not_claimable, db)) × All (λ j. ¬ IsEligible db.now j) db.jobs
      ⊎ ((c : ProvisioningJob) × In c db.jobs
          × IsEligible db.now c
          × All (λ j. IsEligible db.now j → GoesBefore c j) db.jobs
          × (started : ℕ) × Started c.started_at db.now started
          × (let row = leased w (db.now + lease) (c.attempt + 1) started c in
              Jobs.claim w lease db
              ≡ (ok row, record db { jobs = update_where (λ j. j.id == c.id) (λ _. row) db.jobs })))
claim_lem w lease db u = elim (claim-row w lease db u) [
  | inl (e, h) ↦ inl (
    e,
    All-intro _ db.jobs λ j m k.
        let miss : eligible db.now j ≡ false = All-In _ db.jobs h m in
        cc (miss, IsEligible-eligible db.now j k),
  )
  | inr (c, chosen, e) ↦
      let (started, first, row) = claimed-leased w lease db.now c in
      inr (
        c,
        chosen.is_row,
        eligible-IsEligible db.now c chosen.fits,
        All-intro _ db.jobs λ j m k.
            precedes-GoesBefore c j
              (All-In _ db.jobs chosen.is_first m (IsEligible-eligible db.now j k)),
        started,
        first,
        e ∙ written c chosen.is_row _ row,
      )
]
  where
    written :
        (c : ProvisioningJob)
        → In c db.jobs
        → (row : ProvisioningJob) → claimed w lease db.now c ≡ row
        → Path
            (Result ProvisioningJob × Db)
            (ok (claimed w lease db.now c), after_claim w lease c db)
            (ok row, record db { jobs = update_where (λ j. j.id == c.id) (λ _. row) db.jobs })
    written c m row same =
        rw (update_where-one job_key db.jobs c (claimed w lease db.now) u m, same) refl

-- What Claim writes, whatever the keys: nothing, or one chosen row.
pub claim-writes :
    (w lease : ℕ) (db : Db)
    → ((Jobs.claim w lease db).1 ≡ db)
      ⊎ ((c : ProvisioningJob) × IsChosen (eligible db.now) precedes db.jobs c
          × ((Jobs.claim w lease db).1 ≡ after_claim w lease c db))
unfolding Jobs.claim with_tx Jobs.get
claim-writes w lease db =
    elim (Option-cases (first_by precedes (select_where (eligible db.now) db.jobs))) [
      | inl p ↦ inl (rw p refl)
      | inr (c, p) ↦
          elim (Option-cases
            (find (has_id c.id) (update_where (has_id c.id) (claimed w lease db.now) db.jobs))) [
              | inl q ↦ inl (rw p (rw q refl))
              | inr (d, q) ↦ inr (
                c,
                first_by-IsChosen precedes precedes-IsPreorder (eligible db.now) db.jobs c p,
                rw p (rw q refl),
              )
            ]
    ]
