-- ===== src/Ipam.antt =====
-- internal/ipam/repository.go and reaper.go, and in Capacity part of segments.go: the life of an
-- IPv4 address. `now() + make_interval(secs => ttl)` is `now + ttl`.
pub mod Reserve
pub mod Reaper
pub mod Lifecycle
pub mod Rows
pub mod Capacity
pub mod Hostname
pub mod Scanner
use proxmox_manager.Base.{
  ℕ, ◌+◌, Bool, false, ◌&&◌, not, Option, none, some, List, [], ◌∷◌, leb, ◌==◌, ◌++◌, if◌then◌else◌,
  is_some, update_where, count_where, select_where, find, first_by, any, length, Exec, Error,
  not_found, capacity_exhausted, or_raise, gets, modify, ok, err, ◌>>=◌, ◌>>◌,
}
use proxmox_manager.Domain.{
  IpAllocation, ProvisioningJob, AllocationState, AuditEvent, release_expired_reservation, free,
  reserved, assigned, is_free, is_reserved, is_assigned, is_held, is_releasable, is_live, before,
}
use proxmox_manager.Store.{Db, with_tx}

abbrev pub has_id : ℕ → IpAllocation → Bool
has_id k a = a.id == k

-- WHERE segment_id = $1 AND state = 'FREE'
unfoldable pub available : ℕ → IpAllocation → Bool
available segment_id a = a.segment_id == segment_id && is_free a.state

-- ORDER BY address
unfoldable pub precedes : IpAllocation → IpAllocation → Bool
precedes a b = leb a.address b.address

unfoldable pub get : ℕ → Exec Db IpAllocation
get allocation_id db = or_raise not_found (find (has_id allocation_id) db.allocations) db

abbrev pub reserved_for : ℕ → ℕ → IpAllocation → IpAllocation
reserved_for instance_id until a = record a {
  state = reserved;
  instance_id = some instance_id;
  reserved_until = some until;
}

unfoldable pub reserve_next_free : ℕ → ℕ → ℕ → Exec Db IpAllocation
unfolding get
reserve_next_free segment_id instance_id ttl = with_tx do
  candidates ← gets (λ db. select_where (available segment_id) db.allocations)
  chosen ← or_raise capacity_exhausted (first_by precedes candidates)
  modify (λ db. record db {
    allocations =
        update_where (has_id chosen.id) (reserved_for instance_id (db.now + ttl)) db.allocations;
  })
  get chosen.id

abbrev pub is_owned_by : ℕ → Option ℕ → Bool
is_owned_by instance_id none = false
is_owned_by instance_id (some i) = i == instance_id

-- an UPDATE, and ErrNotFound if it affects no row
unfoldable pub update_required :
    (IpAllocation → Bool) → (IpAllocation → IpAllocation) → Exec Db (Unit {0})
update_required p f db =
    if count_where p db.allocations == 0
    then (err not_found, db)
    else (ok tt, record db { allocations = update_where p f db.allocations })

unfoldable pub assignable : ℕ → ℕ → IpAllocation → Bool
assignable allocation_id instance_id a =
    has_id allocation_id a && is_owned_by instance_id a.instance_id && is_reserved a.state

abbrev pub marked_assigned : ℕ → IpAllocation → IpAllocation
marked_assigned now a = record a { state = assigned; assigned_at = some now }

unfoldable pub mark_assigned : ℕ → ℕ → Exec Db (Unit {0})
unfolding update_required assignable
mark_assigned allocation_id instance_id = do
  now ← gets (λ db. db.now)
  update_required (assignable allocation_id instance_id) (marked_assigned now)

unfoldable pub quarantinable : ℕ → IpAllocation → Bool
quarantinable allocation_id a = has_id allocation_id a && is_held a.state

abbrev pub marked_quarantined : IpAllocation → IpAllocation
marked_quarantined a = record a { state = AllocationState.quarantined }

unfoldable pub mark_quarantined : ℕ → Exec Db (Unit {0})
unfolding update_required quarantinable
mark_quarantined allocation_id = update_required (quarantinable allocation_id) marked_quarantined

unfoldable pub releasable : ℕ → IpAllocation → Bool
releasable allocation_id a = has_id allocation_id a && is_releasable a.state

abbrev pub freed : ℕ → IpAllocation → IpAllocation
freed now a = record a {
  state = free;
  instance_id = none;
  reserved_until = none;
  assigned_at = none;
  released_at = some now;
}

unfoldable pub release : ℕ → Exec Db (Unit {0})
unfolding update_required releasable
release allocation_id = do
  now ← gets (λ db. db.now)
  update_required (releasable allocation_id) (freed now)

-- the reaper: EXISTS (… pj.instance_id = ia.instance_id AND pj.state IN ('QUEUED', 'RUNNING',
-- 'RETRY_WAIT')), where no job equals a NULL instance
abbrev pub is_job_of : Option ℕ → ProvisioningJob → Bool
is_job_of none j = false
is_job_of (some i) j = (j.instance_id == i) && is_live j.state

unfoldable pub reapable : ℕ → List ProvisioningJob → IpAllocation → Bool
reapable now jobs a =
    is_reserved a.state
    && before a.reserved_until now
    && is_some a.instance_id
    && not (any (is_job_of a.instance_id) jobs)

-- the reaper's UPDATE leaves assigned_at alone
abbrev pub reaped : ℕ → IpAllocation → IpAllocation
reaped now a = record a {
  state = free;
  instance_id = none;
  reserved_until = none;
  released_at = some now;
}

-- the instance of an audit event; a candidate has one
abbrev owner_id : Option ℕ → ℕ
owner_id none = 0
owner_id (some i) = i

abbrev pub release_event : IpAllocation → AuditEvent
release_event c = record {
  resource_id = c.id;
  action = release_expired_reservation (owner_id c.instance_id);
}

abbrev pub reap_one : Db → IpAllocation → Db
reap_one db c = record db {
  allocations = update_where (has_id c.id) (reaped db.now) db.allocations;
  audit = db.audit ++ release_event c ∷ [];
}

-- `for _, c := range candidates`
unfoldable pub reap_all : List IpAllocation → Db → Db
reap_all [] db = db
reap_all (c ∷ cs) db = reap_all cs (reap_one db c)

unfoldable pub release_expired_reservations : Exec Db ℕ
unfolding reap_all reapable
release_expired_reservations = with_tx do
  candidates ← gets (λ db. select_where (reapable db.now db.jobs) db.allocations)
  modify (reap_all candidates)
  gets (λ _. length candidates)
