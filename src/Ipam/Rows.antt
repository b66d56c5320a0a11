-- ===== src/Ipam/Rows.antt =====
-- What Release and MarkQuarantined of internal/ipam/repository.go do to each row.
use proxmox_manager.Base.{
  ℕ, List, ◌≡◌, refl, ◌↔◌, ◌⊎◌, inl, inr, true, some, none, ◌==◌, ==_iff, &&-eq-true, Bool-cases,
  In, Rowwise, Rowwise-update_where, Rowwise-refl, update_where, update_where_none, count_where,
  count_where-exists, ok, err, not_found,
}
use proxmox_manager.Domain.{IpAllocation, AllocationState, is_held, is_releasable}
use proxmox_manager.Store.{Db}
use proxmox_manager.Ipam

-- the allocation k, in use
abbrev pub IsHeld : ℕ → IpAllocation → Type 0
IsHeld k x =
    (x.id ≡ k) × ((x.state ≡ AllocationState.reserved) ⊎ (x.state ≡ AllocationState.assigned))

-- the allocation k, in use or set aside
abbrev pub IsReleasable : ℕ → IpAllocation → Type 0
IsReleasable k x =
    (x.id ≡ k)
    × ((x.state ≡ AllocationState.reserved)
        ⊎ (x.state ≡ AllocationState.assigned)
        ⊎ (x.state ≡ AllocationState.quarantined))

-- the allocation k becomes QUARANTINED if it is in use, all else is as it was; 0 names none
abbrev pub SetAside : ℕ → IpAllocation → IpAllocation → Type 0
SetAside k x y =
    (IsHeld k x × (y ≡ record x { state = AllocationState.quarantined }))
    ⊎ ((k ≡ 0) ⊎ (¬ IsHeld k x)) × (y ≡ x)

-- the allocation k becomes FREE, without an owner and without a time but this one
abbrev pub Freed : ℕ → ℕ → IpAllocation → IpAllocation → Type 0
Freed now k x y =
    (IsReleasable k x
      × (y ≡ record x {
        state = AllocationState.free;
        instance_id = none;
        reserved_until = none;
        assigned_at = none;
        released_at = some now;
      }))
    ⊎ (¬ IsReleasable k x) × (y ≡ x)

held_iff :
    (s : AllocationState)
    → (is_held s ≡ true) ↔ ((s ≡ AllocationState.reserved) ⊎ (s ≡ AllocationState.assigned))
held_iff AllocationState.reserved = (λ _. inl refl, λ _. refl)
held_iff AllocationState.assigned = (λ _. inr refl, λ _. refl)
held_iff AllocationState.free = (λ h. cc, λ h. elim h [ inl e ↦ cc | inr e ↦ cc ])
held_iff AllocationState.quarantined = (λ h. cc, λ h. elim h [ inl e ↦ cc | inr e ↦ cc ])
held_iff AllocationState.released = (λ h. cc, λ h. elim h [ inl e ↦ cc | inr e ↦ cc ])

releasable_iff :
    (s : AllocationState)
    → (is_releasable s ≡ true) ↔ (
        (s ≡ AllocationState.reserved)
        ⊎ (s ≡ AllocationState.assigned)
        ⊎ (s ≡ AllocationState.quarantined))
releasable_iff AllocationState.reserved = (λ _. inl refl, λ _. refl)
releasable_iff AllocationState.assigned = (λ _. inr (inl refl), λ _. refl)
releasable_iff AllocationState.quarantined = (λ _. inr (inr refl), λ _. refl)
releasable_iff AllocationState.free =
    (λ h. cc, λ h. elim h [ inl e ↦ cc | inr (inl e) ↦ cc | inr (inr e) ↦ cc ])
releasable_iff AllocationState.released =
    (λ h. cc, λ h. elim h [ inl e ↦ cc | inr (inl e) ↦ cc | inr (inr e) ↦ cc ])

quarantinable_iff : (k : ℕ) (x : IpAllocation) → (Ipam.quarantinable k x ≡ true) ↔ IsHeld k x
unfolding Ipam.quarantinable
quarantinable_iff k x = (
  λ h.
      let (same, held) = &&-eq-true (x.id == k) (is_held x.state) h in
      ((==_iff x.id k).0 same, (held_iff x.state).0 held),
  λ h. rw ((==_iff x.id k).1 h.0) ((held_iff x.state).1 h.1),
)

release_iff : (k : ℕ) (x : IpAllocation) → (Ipam.releasable k x ≡ true) ↔ IsReleasable k x
unfolding Ipam.releasable
release_iff k x = (
  λ h.
      let (same, held) = &&-eq-true (x.id == k) (is_releasable x.state) h in
      ((==_iff x.id k).0 same, (releasable_iff x.state).0 held),
  λ h. rw ((==_iff x.id k).1 h.0) ((releasable_iff x.state).1 h.1),
)

pub SetAside-refl : (k : ℕ) → k ≡ 0 → (xs : List IpAllocation) → Rowwise (SetAside k) xs xs
SetAside-refl k z xs = Rowwise-refl (SetAside k) (λ x. inr (inl z, refl)) xs

-- MarkQuarantined, also where it reports ErrNotFound
pub mark_quarantined-rows :
    (k : ℕ) (db : Db)
    → let db' = (Ipam.mark_quarantined k db).1 in
      (db' ≡ record db { allocations = db'.allocations })
      × Rowwise (SetAside k) db.allocations db'.allocations
unfolding Ipam.mark_quarantined Ipam.update_required
mark_quarantined-rows k db =
    elim (Bool-cases (count_where (Ipam.quarantinable k) db.allocations == 0)) [
      | inl e ↦
          let same =
            update_where_none (Ipam.quarantinable k) Ipam.marked_quarantined db.allocations
              ((==_iff _ 0).0 e) in
          rw e (refl, (rw same at rows))
      | inr e ↦ rw e (refl, rows)
    ]
  where
    rows :
        Rowwise
          (SetAside k)
          db.allocations
          (update_where (Ipam.quarantinable k) Ipam.marked_quarantined db.allocations)
    rows =
        Rowwise-update_where (SetAside k) (Ipam.quarantinable k) Ipam.marked_quarantined
          (λ x. elim (Bool-cases (Ipam.quarantinable k x)) [
            | inl e ↦ rw e (inl ((quarantinable_iff k x).0 e, refl))
            | inr e ↦ rw e (inr (inr (λ h. cc (e, (quarantinable_iff k x).1 h)), refl))
          ])
          db.allocations

-- there was such a row, and it is free
abbrev pub Released : ℕ → Db → Db → Type 0
Released k db db' =
    (db' ≡ record db { allocations = db'.allocations })
    × ((x : IpAllocation) × In x db.allocations × IsReleasable k x)
    × Rowwise (Freed db.now k) db.allocations db'.allocations

pub release-rows :
    (k : ℕ) (db : Db)
    → (Ipam.release k db ≡ (err not_found, db))
      ⊎ (Ipam.release k db ≡ (ok tt, (Ipam.release k db).1)) × Released k db (Ipam.release k db).1
unfolding Ipam.release Ipam.update_required
release-rows k db = elim (Bool-cases (count_where (Ipam.releasable k) db.allocations == 0)) [
  | inl e ↦ rw e (inl refl)
  | inr e ↦
      let (x, m, t) = count_where-exists (Ipam.releasable k) db.allocations e in
      rw e (inr (refl, (refl, (x, m, (release_iff k x).0 t), rows)))
]
  where
    rows :
        Rowwise
          (Freed db.now k)
          db.allocations
          (update_where (Ipam.releasable k) (Ipam.freed db.now) db.allocations)
    rows =
        Rowwise-update_where (Freed db.now k) (Ipam.releasable k) (Ipam.freed db.now)
          (λ x. elim (Bool-cases (Ipam.releasable k x)) [
            | inl e ↦ rw e (inl ((release_iff k x).0 e, refl))
            | inr e ↦ rw e (inr (λ h. cc (e, (release_iff k x).1 h), refl))
          ])
          db.allocations
