-- ===== src/Ipam/Reaper/Abandoned.antt =====
-- Which reservations the reaper of internal/ipam/reaper.go takes back.
use proxmox_manager.Base.{
  ℕ, ◌≡◌, ◌<◌, refl, ap, ◌∙◌, ◌↔◌, ◌⊎◌, inl, inr, Bool, true, false, not, ◌&&◌, Option, some, none,
  List, [], ◌∷◌, ◌++◌, arith, Unique, All, All-In, All-intro, Option-cases, Bool-cases, &&-eq-true,
  is_some, ◌==◌, ==_iff, update_where, select_where, any, any-false, any-none, length, map, ok,
}
use proxmox_manager.Domain.{
  IpAllocation, AllocationState, ProvisioningJob, JobState, AuditEvent, is_reserved, is_live,
  before, release_expired_reservation,
}
use proxmox_manager.Store.{Db}
use proxmox_manager.Ipam
use proxmox_manager.Ipam.{reapable, reaped, release_event, is_job_of}
use proxmox_manager.Ipam.Reserve.{allocation_key}
use proxmox_manager.Ipam.Reaper.{reaper-update}

abbrev pub Overdue : ℕ → Option ℕ → Type 0
Overdue now none = ⊥
Overdue now (some t) = t < now

-- QUEUED, RUNNING or in RETRY_WAIT
abbrev pub IsPending : JobState → Type 0
IsPending s = (s ≡ JobState.queued) ⊎ (s ≡ JobState.running) ⊎ (s ≡ JobState.retry_wait)

-- there is an owner, and no job of it is to be done
abbrev pub HasIdleOwner : List ProvisioningJob → Option ℕ → Type 0
HasIdleOwner jobs none = ⊥
HasIdleOwner jobs (some owner) = All (λ j. ¬ ((j.instance_id ≡ owner) × IsPending j.state)) jobs

abbrev pub IsAbandoned : ℕ → List ProvisioningJob → IpAllocation → Type 0
IsAbandoned now jobs a =
    (a.state ≡ AllocationState.reserved)
    × Overdue now a.reserved_until
    × HasIdleOwner jobs a.instance_id

abbrev pub taken_back : ℕ → IpAllocation → IpAllocation
taken_back now a = record a {
  state = AllocationState.free;
  instance_id = none;
  reserved_until = none;
  released_at = some now;
}

abbrev pub event_of : IpAllocation → Option ℕ → AuditEvent
event_of a none = record { resource_id = a.id; action = release_expired_reservation 0 }
event_of a (some owner) = record { resource_id = a.id; action = release_expired_reservation owner }

reserved_iff : (s : AllocationState) → (is_reserved s ≡ true) ↔ (s ≡ AllocationState.reserved)
reserved_iff AllocationState.reserved = (λ _. refl, λ _. refl)
reserved_iff AllocationState.free = (λ h. cc, λ h. cc)
reserved_iff AllocationState.assigned = (λ h. cc, λ h. cc)
reserved_iff AllocationState.quarantined = (λ h. cc, λ h. cc)
reserved_iff AllocationState.released = (λ h. cc, λ h. cc)

before_iff : (t : Option ℕ) (now : ℕ) → (before t now ≡ true) ↔ Overdue now t
before_iff none now = (λ h. cc, λ h. elim h [ ])
before_iff (some t) now = (λ h. ground arith, λ h. ground arith)

live_iff : (s : JobState) → (is_live s ≡ true) ↔ IsPending s
live_iff JobState.queued = (λ _. inl refl, λ _. refl)
live_iff JobState.running = (λ _. inr (inl refl), λ _. refl)
live_iff JobState.retry_wait = (λ _. inr (inr refl), λ _. refl)
live_iff JobState.succeeded =
    (λ h. cc, λ h. elim h [ inl e ↦ cc | inr (inl e) ↦ cc | inr (inr e) ↦ cc ])
live_iff JobState.failed =
    (λ h. cc, λ h. elim h [ inl e ↦ cc | inr (inl e) ↦ cc | inr (inr e) ↦ cc ])
live_iff JobState.cancelled =
    (λ h. cc, λ h. elim h [ inl e ↦ cc | inr (inl e) ↦ cc | inr (inr e) ↦ cc ])

job_iff :
    (owner : ℕ) (j : ProvisioningJob)
    → (is_job_of (some owner) j ≡ true) ↔ ((j.instance_id ≡ owner) × IsPending j.state)
job_iff owner j = (
  λ h.
      let (same, live) = &&-eq-true (j.instance_id == owner) (is_live j.state) h in
      ((==_iff j.instance_id owner).0 same, (live_iff j.state).0 live),
  λ h. rw ((==_iff j.instance_id owner).1 h.0) ((live_iff j.state).1 h.1),
)

idle_iff :
    (jobs : List ProvisioningJob) (owner : ℕ)
    → (any (is_job_of (some owner)) jobs ≡ false) ↔ HasIdleOwner jobs (some owner)
idle_iff jobs owner = (
  λ h. All-intro _ jobs λ j m k.
      let miss : is_job_of (some owner) j ≡ false =
        All-In _ jobs (any-false (is_job_of (some owner)) jobs h) m in
      cc (miss, (job_iff owner j).1 k),
  λ h. any-none (is_job_of (some owner)) jobs (
      All-intro _ jobs λ j m. elim (Bool-cases (is_job_of (some owner) j)) [
        | inl e ↦ absurd (All-In _ jobs h m ((job_iff owner j).0 e))
        | inr e ↦ e
      ]),
)

owner_iff :
    (jobs : List ProvisioningJob) (o : Option ℕ)
    → ((is_some o && not (any (is_job_of o) jobs)) ≡ true) ↔ HasIdleOwner jobs o
owner_iff jobs none = (λ h. cc, λ h. elim h [ ])
owner_iff jobs (some owner) =
    (λ h. (idle_iff jobs owner).0 (ground arith), λ h. rw ((idle_iff jobs owner).1 h) refl)

reapable-IsAbandoned :
    (now : ℕ) (jobs : List ProvisioningJob) (a : IpAllocation)
    → (reapable now jobs a ≡ true) ↔ IsAbandoned now jobs a
unfolding reapable
reapable-IsAbandoned now jobs a = (
  λ h.
      let busy = any (is_job_of a.instance_id) jobs in
      let (front, idle) =
        &&-eq-true (is_reserved a.state && before a.reserved_until now && is_some a.instance_id)
          (not busy) h in
      let (timed, owned) =
        &&-eq-true (is_reserved a.state && before a.reserved_until now) (is_some a.instance_id)
          front in
      let (held, late) = &&-eq-true (is_reserved a.state) (before a.reserved_until now) timed in
      (
        (reserved_iff a.state).0 held,
        (before_iff a.reserved_until now).0 late,
        (owner_iff jobs a.instance_id).0 (rw owned idle),
      ),
  λ h.
      rw ((reserved_iff a.state).1 h.0)
        (rw ((before_iff a.reserved_until now).1 h.1) ((owner_iff jobs a.instance_id).1 h.2)),
)

event-event_of : (a : IpAllocation) → release_event a ≡ event_of a a.instance_id
event-event_of a = elim (Option-cases a.instance_id) [
  | inl e ↦ rw e refl
  | inr (owner, e) ↦ rw e refl
]

events :
    (rows : List IpAllocation) → map release_event rows ≡ map (λ a. event_of a a.instance_id) rows
events [] = refl
events (a ∷ rows) = rw (event-event_of a) (rw (events rows) refl)

-- Where allocation ids are unique, the reaper frees exactly the RESERVED addresses whose
-- reservation has expired, that have an owner and whose owner has no job QUEUED, RUNNING or in
-- RETRY_WAIT: there is a test which such addresses pass and no others, and the rows that pass it are
-- FREE, without an owner or a reservation time, and with this time as that of the release; every
-- other row is as it was. The reaper appends one audit event for each address freed, in the table's
-- order, and returns their number.
pub release_expired_reservations_lem :
    (db : Db)
    → Unique allocation_key db.allocations
    → let (r, db') = Ipam.release_expired_reservations db in
      (abandoned : IpAllocation → Bool) × ((a : IpAllocation)
        → (abandoned a ≡ true) ↔ IsAbandoned db.now db.jobs a)
      × (db'.allocations ≡ update_where abandoned (taken_back db.now) db.allocations)
      × (db'.audit
          ≡ db.audit ++ map (λ a. event_of a a.instance_id) (select_where abandoned db.allocations))
      × (r ≡ ok (length (select_where abandoned db.allocations)))
release_expired_reservations_lem db u =
    let (rows, audit, r) = reaper-update db u in
    (
      reapable db.now db.jobs,
      reapable-IsAbandoned db.now db.jobs,
      rows,
      audit
          ∙ ap (λ es. db.audit ++ es)
              (events (select_where (reapable db.now db.jobs) db.allocations)),
      r,
    )
