-- ===== src/Ipam/Reserve.antt =====
-- ReserveNextFree, as a client sees it.
use proxmox_manager.Base.{
  ℕ, ◌+◌, ◌≤◌, ◌≡◌, refl, ◌∙◌, ◌↔◌, ◌⊎◌, inl, inr, true, false, ◌==◌, ==_iff, &&-eq-true, All-intro,
  All-In, update_where-one, Result, some, none, arith, All, Unique, In, find-Unique,
  find-update_where, Option-cases, ==_refl, select_where, update_where, find, first_by, IsChosen,
  IsPreorder, first_by-IsChosen, first_by-none, ok, err, capacity_exhausted,
}
use proxmox_manager.Domain.{IpAllocation, AllocationState, is_free}
use proxmox_manager.Store.{Db, with_tx}
use proxmox_manager.Ipam
use proxmox_manager.Ipam.{available, precedes, has_id, reserved_for}

abbrev pub allocation_key : IpAllocation → ℕ
allocation_key a = a.id

precedes-IsPreorder : IsPreorder precedes
unfolding precedes
precedes-IsPreorder = record {
  reflexive = λ a. ground arith;
  transitive = λ a b c h k. ground arith;
  total = λ a b h. ground arith;
}

abbrev pub after_reserve : ℕ → ℕ → IpAllocation → Db → Db
after_reserve instance_id ttl c db = record db {
  allocations = update_where (has_id c.id) (reserved_for instance_id (db.now + ttl)) db.allocations;
}

module _ (segment instance_id ttl : ℕ) (db : Db) where
  reserve_none :
      first_by precedes (select_where (available segment) db.allocations) ≡ none
      → Ipam.reserve_next_free segment instance_id ttl db ≡ (err capacity_exhausted, db)
  unfolding Ipam.reserve_next_free with_tx
  reserve_none p = rw p

  reserve_some :
      (c : IpAllocation)
      → Unique allocation_key db.allocations
      → first_by precedes (select_where (available segment) db.allocations) ≡ some c
      → Ipam.reserve_next_free segment instance_id ttl db
        ≡ (ok (reserved_for instance_id (db.now + ttl) c), after_reserve instance_id ttl c db)
  unfolding Ipam.reserve_next_free with_tx Ipam.get
  reserve_some c u p = rw p (rw found refl)
    where
      row : In c db.allocations
      row =
          (first_by-IsChosen precedes precedes-IsPreorder (available segment) db.allocations c
            p).is_row

      found :
          find (has_id c.id) (after_reserve instance_id ttl c db).allocations
          ≡ some (reserved_for instance_id (db.now + ttl) c)
      found =
          rw
            (
              find-update_where (has_id c.id) (has_id c.id)
                  (reserved_for instance_id (db.now + ttl)) (λ x. refl) db.allocations,
              find-Unique allocation_key db.allocations c.id u row refl,
              ==_refl c.id,
            )
            refl

pub reserve-row :
    (segment instance_id ttl : ℕ) (db : Db)
    → Unique allocation_key db.allocations
    → (Ipam.reserve_next_free segment instance_id ttl db ≡ (err capacity_exhausted, db))
        × All (λ a. available segment a ≡ false) db.allocations
      ⊎ ((c : IpAllocation) × IsChosen (available segment) precedes db.allocations c
          × (Ipam.reserve_next_free segment instance_id ttl db ≡ (
            ok (reserved_for instance_id (db.now + ttl) c),
            after_reserve instance_id ttl c db,
          )))
reserve-row segment instance_id ttl db u =
    elim (Option-cases (first_by precedes (select_where (available segment) db.allocations))) [
      | inl p ↦ inl (
        reserve_none segment instance_id ttl db p,
        first_by-none precedes (available segment) db.allocations p,
      )
      | inr (c, p) ↦ inr (
        c,
        first_by-IsChosen precedes precedes-IsPreorder (available segment) db.allocations c p,
        reserve_some segment instance_id ttl db c u p,
      )
    ]

-- a FREE address of the segment
abbrev pub IsAvailable : ℕ → IpAllocation → Type 0
IsAvailable segment a = (a.segment_id ≡ segment) × (a.state ≡ AllocationState.free)

abbrev pub reservation : ℕ → ℕ → IpAllocation → IpAllocation
reservation instance_id until a = record a {
  state = AllocationState.reserved;
  instance_id = some instance_id;
  reserved_until = some until;
}

free_iff : (s : AllocationState) → (is_free s ≡ true) ↔ (s ≡ AllocationState.free)
free_iff AllocationState.free = (λ _. refl, λ _. refl)
free_iff AllocationState.reserved = (λ h. cc, λ h. cc)
free_iff AllocationState.assigned = (λ h. cc, λ h. cc)
free_iff AllocationState.quarantined = (λ h. cc, λ h. cc)
free_iff AllocationState.released = (λ h. cc, λ h. cc)

available_iff :
    (segment : ℕ) (a : IpAllocation) → (available segment a ≡ true) ↔ IsAvailable segment a
unfolding available
available_iff segment a = (
  λ h.
      let (at_segment, unused) = &&-eq-true (a.segment_id == segment) (is_free a.state) h in
      ((==_iff a.segment_id segment).0 at_segment, (free_iff a.state).0 unused),
  λ h. rw ((==_iff a.segment_id segment).1 h.0) ((free_iff a.state).1 h.1),
)

precedes-lower : (a b : IpAllocation) → precedes a b ≡ true → a.address ≤ b.address
unfolding precedes
precedes-lower a b h = ground arith

-- Where allocation ids are unique, ReserveNextFree either reports ErrCapacityExhausted, the segment
-- having no FREE address and nothing changed; or it returns a FREE address of the segment that no
-- FREE address of the segment lies below, and that row alone is changed: to RESERVED for the
-- instance until now + ttl.
pub reserve_next_free_lem :
    (segment instance_id ttl : ℕ) (db : Db)
    → Unique allocation_key db.allocations
    → (Ipam.reserve_next_free segment instance_id ttl db ≡ (err capacity_exhausted, db))
        × All (λ a. ¬ IsAvailable segment a) db.allocations
      ⊎ ((c : IpAllocation) × In c db.allocations
          × IsAvailable segment c
          × All (λ a. IsAvailable segment a → c.address ≤ a.address) db.allocations
          × (let row = reservation instance_id (db.now + ttl) c in
              Ipam.reserve_next_free segment instance_id ttl db ≡ (
                ok row,
                record db {
                  allocations = update_where (λ a. a.id == c.id) (λ _. row) db.allocations;
                },
              )))
reserve_next_free_lem segment instance_id ttl db u =
    elim (reserve-row segment instance_id ttl db u) [
      | inl (e, h) ↦ inl (
        e,
        All-intro _ db.allocations λ a m k.
            let miss : available segment a ≡ false = All-In _ db.allocations h m in
            cc (miss, (available_iff segment a).1 k),
      )
      | inr (c, chosen, e) ↦ inr (
        c,
        chosen.is_row,
        (available_iff segment c).0 chosen.fits,
        All-intro _ db.allocations λ a m k.
            precedes-lower c a
              (All-In _ db.allocations chosen.is_first m ((available_iff segment a).1 k)),
        e ∙ written c chosen.is_row,
      )
    ]
  where
    written :
        (c : IpAllocation)
        → In c db.allocations
        → Path
            (Result IpAllocation × Db)
            (ok (reserved_for instance_id (db.now + ttl) c), after_reserve instance_id ttl c db)
            (
              ok (reservation instance_id (db.now + ttl) c),
              record db {
                allocations =
                    update_where
                      (λ a. a.id == c.id)
                      (λ _. reservation instance_id (db.now + ttl) c)
                      db.allocations;
              },
            )
    written c m =
        rw
          (update_where-one allocation_key db.allocations c
            (reserved_for instance_id (db.now + ttl)) u m)
          refl

-- What it writes, whatever the keys: nothing, or one chosen row.
pub reserve-writes :
    (segment instance_id ttl : ℕ) (db : Db)
    → ((Ipam.reserve_next_free segment instance_id ttl db).1 ≡ db)
      ⊎ ((c : IpAllocation) × IsChosen (available segment) precedes db.allocations c
          × ((Ipam.reserve_next_free segment instance_id ttl db).1
              ≡ after_reserve instance_id ttl c db))
unfolding Ipam.reserve_next_free with_tx Ipam.get
reserve-writes segment instance_id ttl db =
    elim (Option-cases (first_by precedes (select_where (available segment) db.allocations))) [
      | inl p ↦ inl (rw p refl)
      | inr (c, p) ↦
          elim (Option-cases
            (find (has_id c.id) (after_reserve instance_id ttl c db).allocations)) [
              | inl q ↦ inl (rw p (rw q refl))
              | inr (d, q) ↦ inr (
                c,
                first_by-IsChosen precedes precedes-IsPreorder (available segment) db.allocations c
                    p,
                rw p (rw q refl),
              )
            ]
    ]
