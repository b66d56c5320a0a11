-- ===== src/Ipam/Capacity.antt =====
-- internal/ipam/segments.go, Capacity: the addresses of a segment by their state.
use proxmox_manager.Base.{
  ℕ, ◌+◌, ◌≡◌, ◌≢◌, refl, sym, ap, ◌∙◌, ◌↔◌, inl, inr, Bool, true, false, ◌&&◌, List, [], ◌∷◌,
  arith, All, Bool-cases, ◌==◌, count_where, count_where-none, err, capacity_exhausted, In, subst,
  Unique,
}
use proxmox_manager.Domain.{IpAllocation, AllocationState, free, reserved, assigned, released}
use proxmox_manager.Store.{Db}
use proxmox_manager.Ipam
use proxmox_manager.Ipam.{available, precedes}
use proxmox_manager.Ipam.Lifecycle.{IsWellFormed, AllWellFormed}
use proxmox_manager.Ipam.Reserve.{allocation_key, reserve-row}

pub record SegmentCapacity : Type 0 where
  pub total : ℕ
  pub free_count : ℕ
  pub reserved_count : ℕ
  pub assigned_count : ℕ
  pub quarantined_count : ℕ

-- one group of the SELECT … GROUP BY state; a state without rows has no group, and adds nothing
unfoldable pub add_group : AllocationState → ℕ → SegmentCapacity → SegmentCapacity
add_group free n c = record c { total = c.total + n; free_count = n }
add_group reserved n c = record c { total = c.total + n; reserved_count = n }
add_group assigned n c = record c { total = c.total + n; assigned_count = n }
add_group AllocationState.quarantined n c = record c { total = c.total + n; quarantined_count = n }
add_group released n c = record c { total = c.total + n }

abbrev pub same_state : AllocationState → AllocationState → Bool
same_state free free = true
same_state reserved reserved = true
same_state assigned assigned = true
same_state AllocationState.quarantined AllocationState.quarantined = true
same_state released released = true
same_state _ _ = false

abbrev pub in_group : ℕ → AllocationState → IpAllocation → Bool
in_group segment_id s a = a.segment_id == segment_id && same_state a.state s

abbrev pub add_state : ℕ → AllocationState → List IpAllocation → SegmentCapacity → SegmentCapacity
add_state segment_id s rows = add_group s (count_where (in_group segment_id s) rows)

unfoldable pub capacity : ℕ → Db → SegmentCapacity
unfolding add_group
capacity segment_id db = add_state segment_id free db.allocations (
    add_state segment_id reserved db.allocations (
      add_state segment_id assigned db.allocations (
        add_state segment_id AllocationState.quarantined db.allocations (
          add_state segment_id released db.allocations (record {
            total = 0;
            free_count = 0;
            reserved_count = 0;
            assigned_count = 0;
            quarantined_count = 0;
          })))))

not_released : (s : AllocationState) → s ≢ released → same_state s released ≡ false
not_released free d = refl
not_released reserved d = refl
not_released assigned d = refl
not_released AllocationState.quarantined d = refl
not_released released d = elim (d refl) [ ]

no_released :
    (segment : ℕ) (rows : List IpAllocation)
    → All IsWellFormed rows
    → count_where (in_group segment released) rows ≡ 0
no_released segment rows h = count_where-none (in_group segment released) rows (none_of rows h)
  where
    none_of :
        (xs : List IpAllocation)
        → All IsWellFormed xs
        → All (λ a. in_group segment released a ≡ false) xs
    none_of [] k = tt
    none_of (a ∷ xs) k = (
      elim (Bool-cases (a.segment_id == segment)) [
        | inl t ↦ rw t (not_released a.state k.0.reused)
        | inr t ↦ rw t refl
      ],
      none_of xs k.1,
    )

groups_total :
    (segment : ℕ) (rows : List IpAllocation)
    → count_where (in_group segment released) rows
        + count_where (in_group segment AllocationState.quarantined) rows
        + count_where (in_group segment assigned) rows
        + count_where (in_group segment reserved) rows
        + count_where (in_group segment free) rows
      ≡ count_where (λ a. a.segment_id == segment) rows
unfolding count_where
groups_total segment [] = refl
groups_total segment (a ∷ rows) = ground (arith, groups_total segment rows)

free_available :
    (segment : ℕ) (rows : List IpAllocation)
    → count_where (in_group segment free) rows ≡ count_where (available segment) rows
unfolding count_where available
free_available segment [] = refl
free_available segment (a ∷ rows) = ground (arith, free_available segment rows)

count_where-In :
    (p : IpAllocation → Bool) (rows : List IpAllocation) (a : IpAllocation)
    → In a rows
    → p a ≡ true
    → count_where p rows ≢ 0
unfolding count_where
count_where-In p [] a m e = elim m [ ]
count_where-In p (x ∷ rows) a (inl q) e = rw (subst (λ z. p z ≡ true) q e) (λ z. ground arith)
count_where-In p (x ∷ rows) a (inr m) e = elim (Bool-cases (p x)) [
  | inl t ↦ rw t (λ z. ground arith)
  | inr t ↦ rw t (count_where-In p rows a m e)
]

-- Where every address is well formed (see Lifecycle) and allocation ids are unique: the capacity's
-- total is the number of the segment's addresses and the sum of the four counts, and its count of
-- FREE addresses is 0 exactly where ReserveNextFree reports ErrCapacityExhausted.
capacity_lem :
    (segment instance_id ttl : ℕ) (db : Db)
    → AllWellFormed db
    → Unique allocation_key db.allocations
    → let c = capacity segment db in
      (c.total ≡ count_where (λ a. a.segment_id == segment) db.allocations)
      × (c.total ≡ c.free_count + c.reserved_count + c.assigned_count + c.quarantined_count)
      × ((c.free_count ≡ 0)
          ↔ ((Ipam.reserve_next_free segment instance_id ttl db).0 ≡ err capacity_exhausted))
unfolding capacity
capacity_lem segment instance_id ttl db h u =
    let none_left = no_released segment db.allocations h in
    let sum = groups_total segment db.allocations in
    let same = free_available segment db.allocations in
    (
      omega arith,
      omega arith,
      elim (reserve-row segment instance_id ttl db u) [
        | inl (e, a) ↦ (
          λ _. ap (λ x. x.0) e,
          λ _. same ∙ count_where-none (available segment) db.allocations a,
        )
        | inr (c, ch, e) ↦ (
          λ z.
              elim (count_where-In (available segment) db.allocations c ch.is_row ch.fits
                (sym same ∙ z)) [ ],
          λ bad. cc (rw e at bad),
        )
      ],
    )
