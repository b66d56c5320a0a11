-- ===== src/Examples/Queue.antt =====
-- The job queue at the sample.
use proxmox_manager.Base.{
  ℕ, ◌+◌, ◌==◌, ◌≡◌, refl, ◌⊎◌, ok, err, not_claimable, All, In, Unique, find, update_where,
}
use proxmox_manager.Domain.{ProvisioningJob}
use proxmox_manager.Jobs
use proxmox_manager.Jobs.{holds, lease_expired, has_id}
use proxmox_manager.Jobs.Queue.{Action, apply}
use proxmox_manager.Jobs.Claim.{job_key, IsEligible, GoesBefore, Started, leased, claim_lem}
use proxmox_manager.Jobs.Lease.{AllConsistent, apply-AllConsistent}
use proxmox_manager.Jobs.Exclusion.{Held, apply-Held}
use proxmox_manager.Examples.Sample.{sample, running_job}

sample-Unique : Unique job_key sample.jobs
sample-Unique = ((refl, tt), (tt, tt))

claim_lem_example :
    (Jobs.claim 8 60 sample ≡ (err not_claimable, sample))
      × All (λ j. ¬ IsEligible 100 j) sample.jobs
    ⊎ ((c : ProvisioningJob) × In c sample.jobs
        × IsEligible 100 c
        × All (λ j. IsEligible 100 j → GoesBefore c j) sample.jobs
        × (started : ℕ) × Started c.started_at 100 started
        × (let row = leased 8 160 (c.attempt + 1) started c in
            Jobs.claim 8 60 sample ≡ (
              ok row,
              record sample { jobs = update_where (λ j. j.id == c.id) (λ _. row) sample.jobs },
            )))
claim_lem_example = claim_lem 8 60 sample sample-Unique

apply-AllConsistent_example : AllConsistent (apply (Action.claim 8 60) sample)
apply-AllConsistent_example =
    apply-AllConsistent (Action.claim 8 60) sample
      (record { owner = refl; expiry = refl }, (record { owner = refl; expiry = refl }, tt))

apply-Held_example : Held 1 7 1 (apply (Action.claim 8 60) sample)
apply-Held_example =
    apply-Held 1 7 sample running_job (Action.claim 8 60) sample-Unique (unfold find in refl)
      (unfold holds in refl) (unfold lease_expired in refl) refl
