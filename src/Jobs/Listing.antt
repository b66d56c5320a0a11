-- ===== src/Jobs/Listing.antt =====
-- internal/jobs/repository.go, List: the jobs of a filter, newest first, after a position.
use proxmox_manager.Base.{
  ℕ, String, Bool, true, ◌&&◌, ◌||◌, Option, none, some, List, ltb, ◌==◌, arith, select_where,
  sort_by, take, IsOrder,
}
use text.Mathlib.Text.{◌==◌ as str_eq}
use proxmox_manager.Domain.{
  ProvisioningJob, JobState, JobOperation, provision, reconcile, queued, running, succeeded,
}
use proxmox_manager.Store.{Db}

-- `==` on the two enumerations
abbrev pub state_code : JobState → ℕ
state_code queued = 0
state_code running = 1
state_code JobState.retry_wait = 2
state_code succeeded = 3
state_code JobState.failed = 4
state_code JobState.cancelled = 5

abbrev pub operation_code : JobOperation → ℕ
operation_code provision = 0
operation_code JobOperation.retry = 1
operation_code JobOperation.rebuild = 2
operation_code JobOperation.quarantine = 3
operation_code JobOperation.decommission = 4
operation_code reconcile = 5

-- none, 0 and "" do not filter
pub record ListFilter : Type 0 where
  pub state : Option JobState
  pub operation : Option JobOperation
  pub instance_id : ℕ
  pub q : String

abbrev fits_state : Option JobState → ProvisioningJob → Bool
fits_state none j = true
fits_state (some s) j = state_code j.state == state_code s

abbrev fits_operation : Option JobOperation → ProvisioningJob → Bool
fits_operation none j = true
fits_operation (some o) j = operation_code j.operation == operation_code o

-- `matches` is ILIKE on the names of the job's instance
unfoldable pub fits : (String → ℕ → Bool) → ListFilter → ProvisioningJob → Bool
fits matches filter j =
    (str_eq filter.q "" || matches filter.q j.instance_id)
    && fits_state filter.state j
    && fits_operation filter.operation j
    && (filter.instance_id == 0 || j.instance_id == filter.instance_id)

-- ORDER BY created_at DESC, id DESC
abbrev pub newer : ProvisioningJob → ProvisioningJob → Bool
newer a b = ltb b.created_at a.created_at || (a.created_at == b.created_at && ltb b.id a.id)

-- (created_at, id) < ($t, $id), where there is a position
abbrev pub is_after : Option (ℕ × ℕ) → ProvisioningJob → Bool
is_after none j = true
is_after (some (t, id)) j = ltb j.created_at t || (t == j.created_at && ltb j.id id)

unfoldable pub list :
    (String → ℕ → Bool) → ListFilter → Option (ℕ × ℕ) → ℕ → Db → List ProvisioningJob
unfolding fits
list matches filter after limit db =
    take limit
      (sort_by newer (select_where (λ j. fits matches filter j && is_after after j) db.jobs))

abbrev pub job_key : ProvisioningJob → ℕ
job_key j = j.id

pub newer-IsOrder : IsOrder job_key newer
newer-IsOrder = record {
  irreflexive = λ a. ground arith;
  transitive = λ a b c p q. ground arith;
  asymmetric = λ a b p. ground arith;
  total = λ a b p q. ground arith;
}
