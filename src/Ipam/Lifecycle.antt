-- ===== src/Ipam/Lifecycle.antt =====
-- The states of an address under every operation of the package.
use proxmox_manager.Base.{
  ℕ, ◌≡◌, ◌≢◌, inl, inr, Bool, true, not, List, [], ◌∷◌, arith, All, All-update_where, Bool-cases,
  is_some, update_where, count_where, select_where, ◌==◌,
}
use proxmox_manager.Domain.{IpAllocation, released, is_free}
use proxmox_manager.Store.{Db, with_tx}
use proxmox_manager.Ipam
use proxmox_manager.Ipam.{
  has_id, available, reserved_for, assignable, marked_assigned, quarantinable, marked_quarantined,
  releasable, freed, reapable, reaped, reap_one, reap_all, update_required,
}
use proxmox_manager.Ipam.Reserve.{reserve-writes}

pub data Action : Type 0 where
  reserve : ℕ → ℕ → ℕ → Action
  assign : ℕ → ℕ → Action
  quarantine : ℕ → Action
  release : ℕ → Action
  reap : Action

unfoldable pub apply : Action → Db → Db
apply (reserve s i ttl) db = (Ipam.reserve_next_free s i ttl db).1
apply (assign k i) db = (Ipam.mark_assigned k i db).1
apply (quarantine k) db = (Ipam.mark_quarantined k db).1
apply (release k) db = (Ipam.release k db).1
apply reap db = (Ipam.release_expired_reservations db).1

-- an address has an owner exactly while it is not FREE, and is never RELEASED
pub record IsWellFormed (a : IpAllocation) : Type 0 where
  pub owner : is_some a.instance_id ≡ not (is_free a.state)
  pub reused : a.state ≢ released

abbrev pub AllWellFormed : Db → Type 0
AllWellFormed db = All IsWellFormed db.allocations

module _ (p : IpAllocation → Bool) (f : IpAllocation → IpAllocation) where
  All-write :
      ((a : IpAllocation) → p a ≡ true → IsWellFormed a → IsWellFormed (f a))
      → (xs : List IpAllocation) → All IsWellFormed xs
      → All IsWellFormed (update_where p f xs)
  All-write keep xs h = All-update_where IsWellFormed IsWellFormed p f keep (λ a _ w. w) xs h

  update_required-AllWellFormed :
      ((a : IpAllocation) → p a ≡ true → IsWellFormed a → IsWellFormed (f a))
      → (db : Db) → AllWellFormed db
      → AllWellFormed (update_required p f db).1
  unfolding update_required
  update_required-AllWellFormed keep db h = elim (Bool-cases (count_where p db.allocations == 0)) [
    | inl t ↦ rw t h
    | inr t ↦ rw t (All-write keep db.allocations h)
  ]

reserve-AllWellFormed :
    (s i ttl : ℕ) (db : Db) → AllWellFormed db → AllWellFormed (Ipam.reserve_next_free s i ttl db).1
reserve-AllWellFormed s i ttl db h = elim (reserve-writes s i ttl db) [
  | inl e ↦ rw e h
  | inr (c, _, e) ↦ rw e (All-write _ _ (λ a _ w. ground arith) db.allocations h)
]

reap_all-AllWellFormed :
    (cs : List IpAllocation) (db : Db) → AllWellFormed db → AllWellFormed (reap_all cs db)
unfolding reap_all
reap_all-AllWellFormed [] db h = h
reap_all-AllWellFormed (c ∷ cs) db h =
    reap_all-AllWellFormed cs (reap_one db c)
      (All-write (has_id c.id) (reaped db.now) (λ a _ w. ground arith) db.allocations h)

-- Every operation keeps this of every address: it has an owner exactly while it is not FREE, and
-- its state is not RELEASED.
pub apply-AllWellFormed : (a : Action) (db : Db) → AllWellFormed db → AllWellFormed (apply a db)
unfolding apply
apply-AllWellFormed (reserve s i ttl) db h = reserve-AllWellFormed s i ttl db h
apply-AllWellFormed (assign k i) db h =
    unfold Ipam.mark_assigned in
    update_required-AllWellFormed (assignable k i) (marked_assigned db.now)
      (λ a t w. unfold assignable in ground arith) db h
apply-AllWellFormed (quarantine k) db h =
    unfold Ipam.mark_quarantined in
    update_required-AllWellFormed (quarantinable k) marked_quarantined
      (λ a t w. unfold quarantinable in ground arith) db h
apply-AllWellFormed (release k) db h =
    unfold Ipam.release in
    update_required-AllWellFormed (releasable k) (freed db.now) (λ a t w. ground arith) db h
apply-AllWellFormed reap db h =
    unfold Ipam.release_expired_reservations with_tx in
    reap_all-AllWellFormed (select_where (reapable db.now db.jobs) db.allocations) db h
