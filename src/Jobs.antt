-- ===== src/Jobs.antt =====
-- internal/jobs/repository.go: the job queue with leases. A worker is a number, as is a lease's
-- length. `requireRowsAffected` is the test on `count_where`.
pub mod Selection
pub mod Queue
pub mod Claim
pub mod Lease
pub mod Exclusion
pub mod Listing
use proxmox_manager.Base.{
  ℕ, suc, String, ◌+◌, Bool, false, ◌&&◌, ◌||◌, Option, none, some, List, [], ◌∷◌, ◌++◌, ltb, leb,
  ◌==◌, if◌then◌else◌, update_where, count_where, select_where, find, first_by, Exec, Error,
  not_found, not_claimable, lease_lost, invalid_transition, raise, or_raise, gets, modify, ok, err,
  ◌>>=◌, ◌>>◌,
}
use proxmox_manager.Domain.{
  ProvisioningJob, JobState, JobOperation, InstanceState, CheckpointData, empty_checkpoint, queued,
  running, succeeded, is_running, is_waiting, is_requeuable, before, after,
}
use proxmox_manager.Store.{Db, with_tx}

-- the columns' defaults are those of migrations/000001_init.up.sql
unfoldable pub create : ℕ → JobOperation → InstanceState → Exec Db ProvisioningJob
create instance_id operation initial_checkpoint db =
    let job = new in (ok job, record db { next_id = suc db.next_id; jobs = db.jobs ++ job ∷ [] })
  where
    new : ProvisioningJob
    new = record {
      id = db.next_id;
      instance_id = instance_id;
      operation = operation;
      state = queued;
      checkpoint = initial_checkpoint;
      checkpoint_data = empty_checkpoint;
      priority = 0;
      attempt = 0;
      max_attempts = 8;
      next_attempt_at = db.now;
      lease_owner = none;
      lease_expires_at = none;
      error_code = none;
      created_at = db.now;
      started_at = none;
      finished_at = none;
    }

-- WHERE next_attempt_at <= now() AND state IN ('QUEUED', 'RETRY_WAIT')
unfoldable pub eligible : ℕ → ProvisioningJob → Bool
eligible now j = leb j.next_attempt_at now && is_waiting j.state

-- ORDER BY priority DESC, created_at: `a` may stand before `b`
unfoldable pub precedes : ProvisioningJob → ProvisioningJob → Bool
precedes a b =
    ltb b.priority a.priority || (a.priority == b.priority && leb a.created_at b.created_at)

abbrev pub has_id : ℕ → ProvisioningJob → Bool
has_id k j = j.id == k

unfoldable pub get : ℕ → Exec Db ProvisioningJob
get job_id db = or_raise not_found (find (has_id job_id) db.jobs) db

-- COALESCE(t, now())
abbrev coalesce : Option ℕ → ℕ → Option ℕ
coalesce none now = some now
coalesce (some t) now = some t

unfoldable pub claimed : ℕ → ℕ → ℕ → ProvisioningJob → ProvisioningJob
claimed worker lease now j = record j {
  state = running;
  lease_owner = some worker;
  lease_expires_at = some (now + lease);
  attempt = j.attempt + 1;
  started_at = coalesce j.started_at now;
}

unfoldable pub claim : ℕ → ℕ → Exec Db ProvisioningJob
claim worker lease = with_tx do
  now ← gets (λ db. db.now)
  candidates ← gets (λ db. select_where (eligible now) db.jobs)
  chosen ← or_raise not_claimable (first_by precedes candidates)
  modify (λ db. record db {
    jobs = update_where (has_id chosen.id) (claimed worker lease now) db.jobs;
  })
  get chosen.id

abbrev pub is_owned_by : ℕ → Option ℕ → Bool
is_owned_by worker none = false
is_owned_by worker (some w) = w == worker

-- WHERE id = $1 AND lease_owner = $2 AND state = 'RUNNING'
unfoldable pub holds : ℕ → ℕ → ProvisioningJob → Bool
holds job_id worker j = has_id job_id j && is_owned_by worker j.lease_owner && is_running j.state

-- an UPDATE, and an error if it affects no row
unfoldable pub update_required :
    Error → (ProvisioningJob → Bool) → (ProvisioningJob → ProvisioningJob) → Exec Db (Unit {0})
update_required if_zero p f db =
    if count_where p db.jobs == 0
    then (err if_zero, db)
    else (ok tt, record db { jobs = update_where p f db.jobs })

abbrev pub extended : ℕ → ℕ → ProvisioningJob → ProvisioningJob
extended extension now j = record j { lease_expires_at = some (now + extension) }

-- WHERE id = $2 AND lease_owner = $3 AND state = 'RUNNING' AND lease_expires_at > now()
unfoldable pub holds_lease : ℕ → ℕ → ℕ → ProvisioningJob → Bool
unfolding holds
holds_lease job_id worker now j = holds job_id worker j && after j.lease_expires_at now

unfoldable pub heartbeat : ℕ → ℕ → ℕ → Exec Db (Unit {0})
unfolding update_required holds_lease
heartbeat job_id worker extension = do
  now ← gets (λ db. db.now)
  update_required lease_lost (holds_lease job_id worker now) (extended extension now)

abbrev pub completed : ℕ → ProvisioningJob → ProvisioningJob
completed now j = record j {
  state = succeeded;
  finished_at = some now;
  lease_owner = none;
  lease_expires_at = none;
}

unfoldable pub complete : ℕ → ℕ → Exec Db (Unit {0})
unfolding update_required holds
complete job_id worker = do
  now ← gets (λ db. db.now)
  update_required lease_lost (holds job_id worker) (completed now)

-- `retryAt != nil` is a time, `nil` is `none`
abbrev pub failed_job : Option ℕ → String → ℕ → ProvisioningJob → ProvisioningJob
failed_job (some retry_at) code now j = record j {
  state = JobState.retry_wait;
  next_attempt_at = retry_at;
  error_code = some code;
  lease_owner = none;
  lease_expires_at = none;
}
failed_job none code now j = record j {
  state = JobState.failed;
  finished_at = some now;
  error_code = some code;
  lease_owner = none;
  lease_expires_at = none;
}

unfoldable pub fail : ℕ → ℕ → String → Option ℕ → Exec Db (Unit {0})
unfolding update_required holds
fail job_id worker code retry_at = do
  now ← gets (λ db. db.now)
  update_required lease_lost (holds job_id worker) (failed_job retry_at code now)

-- WHERE state = 'RUNNING' AND lease_expires_at IS NOT NULL AND lease_expires_at < now()
unfoldable pub lease_expired : ℕ → ProvisioningJob → Bool
lease_expired now j = is_running j.state && before j.lease_expires_at now

abbrev pub reclaimed : ProvisioningJob → ProvisioningJob
reclaimed j = record j { state = queued; lease_owner = none; lease_expires_at = none }

unfoldable pub reclaim_expired_leases : Exec Db ℕ
unfolding lease_expired
reclaim_expired_leases db = (
  ok (count_where (lease_expired db.now) db.jobs),
  record db { jobs = update_where (lease_expired db.now) reclaimed db.jobs },
)

abbrev pub requeued : ℕ → ProvisioningJob → ProvisioningJob
requeued now j = record j {
  state = queued;
  next_attempt_at = now;
  error_code = none;
  lease_owner = none;
  lease_expires_at = none;
}

-- WHERE id = $1 AND state IN ('FAILED', 'RETRY_WAIT')
unfoldable pub may_requeue : ℕ → ProvisioningJob → Bool
may_requeue job_id j = has_id job_id j && is_requeuable j.state

-- UPDATE … RETURNING: no row is told apart into a missing job and one in another state
unfoldable pub requeue : ℕ → Exec Db ProvisioningJob
unfolding get may_requeue
requeue job_id db =
    if count_where (may_requeue job_id) db.jobs == 0
    then (do get job_id; raise invalid_transition) db
    else get job_id
        (record db { jobs = update_where (may_requeue job_id) (requeued db.now) db.jobs })

abbrev pub checkpointed : InstanceState → CheckpointData → ProvisioningJob → ProvisioningJob
checkpointed checkpoint checkpoint_data j = record j {
  checkpoint = checkpoint;
  checkpoint_data = checkpoint_data;
}

unfoldable pub update_checkpoint : ℕ → InstanceState → CheckpointData → Exec Db (Unit {0})
unfolding update_required
update_checkpoint job_id checkpoint checkpoint_data =
    update_required not_found (has_id job_id) (checkpointed checkpoint checkpoint_data)
