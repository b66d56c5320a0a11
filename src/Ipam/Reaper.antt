-- ===== src/Ipam/Reaper.antt =====
-- The reservation reaper: its loop over the candidates is one UPDATE.
pub mod Abandoned
use proxmox_manager.Base.{
  ℕ, ◌≡◌, refl, sym, ap, ◌∙◌, inl, inr, Bool, true, false, ◌||◌, ◌&&◌, some, List, [], ◌∷◌, ◌++◌,
  arith, Unique, In, All-In, All-intro, same_row, ==_refl, Bool-cases, ◌==◌, ==_iff, if◌then◌else◌,
  update_where, select_where, find, find-update_where, find-Unique, any, any-In, any-none,
  update_where-agree, update_where-never, In-selected, In-select_where, All-select_where, length,
  map, append-nil, append_assoc, ok,
}
use proxmox_manager.Domain.{IpAllocation, VmInstance, is_ready, is_live, is_expired_reservation}
use proxmox_manager.Store.{Db, with_tx}
use proxmox_manager.Ipam
use proxmox_manager.Ipam.{has_id, reapable, reaped, reap_all, reap_one, release_event}
use proxmox_manager.Ipam.Reserve.{allocation_key}

-- some candidate has the key of x
abbrev listed : List IpAllocation → IpAllocation → Bool
listed cs x = any (λ c. x.id == c.id) cs

reap_row :
    (now : ℕ) (p q : IpAllocation → Bool)
    → ((x : IpAllocation) → q (reaped now x) ≡ q x)
    → (x : IpAllocation)
    → (if q (if p x then reaped now x else x)
        then reaped now (if p x then reaped now x else x)
        else (if p x then reaped now x else x))
      ≡ (if p x || q x then reaped now x else x)
reap_row now p q h x = elim (Bool-cases (p x)) [
  | inl t ↦ rw t (elim (Bool-cases (q (reaped now x))) [ inl s ↦ rw s | inr s ↦ rw s ])
  | inr t ↦ rw t
]

reap_twice :
    (now : ℕ) (p q : IpAllocation → Bool)
    → ((x : IpAllocation) → q (reaped now x) ≡ q x)
    → (xs : List IpAllocation)
    → update_where q (reaped now) (update_where p (reaped now) xs)
      ≡ update_where (λ x. p x || q x) (reaped now) xs
unfolding update_where
reap_twice now p q h [] = refl
reap_twice now p q h (x ∷ xs) = rw (reap_row now p q h x) (rw (reap_twice now p q h xs))

reap_all-allocations :
    (cs : List IpAllocation) (db : Db)
    → (reap_all cs db).allocations ≡ update_where (listed cs) (reaped db.now) db.allocations
unfolding reap_all any
reap_all-allocations [] db = sym (update_where-never (reaped db.now) db.allocations)
reap_all-allocations (c ∷ cs) db =
    reap_all-allocations cs (reap_one db c)
    ∙ reap_twice db.now (has_id c.id) (listed cs) (λ x. refl) db.allocations

reap_all-instances : (cs : List IpAllocation) (db : Db) → (reap_all cs db).instances ≡ db.instances
unfolding reap_all
reap_all-instances [] db = refl
reap_all-instances (c ∷ cs) db = reap_all-instances cs (reap_one db c)

reap_all-audit :
    (cs : List IpAllocation) (db : Db) → (reap_all cs db).audit ≡ db.audit ++ map release_event cs
unfolding reap_all
reap_all-audit [] db = sym (append-nil _)
reap_all-audit (c ∷ cs) db = reap_all-audit cs (reap_one db c) ∙ rw append_assoc refl

listed-eq-p :
    (p : IpAllocation → Bool) (xs : List IpAllocation)
    → Unique allocation_key xs
    → (x : IpAllocation) → In x xs
    → listed (select_where p xs) x ≡ p x
listed-eq-p p xs u x m = elim (Bool-cases (p x)) [
  | inl t ↦ any-In _ _ x (In-selected p xs x m t) (==_refl x.id) ∙ sym t
  | inr t ↦
      any-none _ _ (
        All-intro _ (select_where p xs) λ c sel. elim (Bool-cases (x.id == c.id)) [
          | inl e ↦
              let same : x ≡ c =
                same_row allocation_key xs c.id u
                  (find-Unique allocation_key xs c.id u (In-select_where p xs c sel) refl) m
                  ((==_iff x.id c.id).0 e) in
              cc (same, t, All-In _ _ (All-select_where p xs) sel)
          | inr e ↦ e
        ])
      ∙ sym t
]

pub reaper-update :
    (db : Db)
    → Unique allocation_key db.allocations
    → let (r, db') = Ipam.release_expired_reservations db in
      let gone = select_where (reapable db.now db.jobs) db.allocations in
      (db'.allocations ≡ update_where (reapable db.now db.jobs) (reaped db.now) db.allocations)
      × (db'.audit ≡ db.audit ++ map release_event gone)
      × (r ≡ ok (length gone))
unfolding Ipam.release_expired_reservations with_tx
reaper-update db u =
    let p : IpAllocation → Bool = reapable db.now db.jobs in
    let cs : List IpAllocation = select_where p db.allocations in
    (
      reap_all-allocations cs db
          ∙ update_where-agree (listed cs) p (reaped db.now) db.allocations
              (All-intro _ db.allocations (listed-eq-p p db.allocations u)),
      reap_all-audit cs db,
      refl,
    )

expired-reapable :
    (db : Db) (a : IpAllocation) (i : ℕ)
    → a.instance_id ≡ some i
    → is_expired_reservation a db.now ≡ true
    → any (λ j. (j.instance_id == i) && is_live j.state) db.jobs ≡ false
    → reapable db.now db.jobs a ≡ true
unfolding reapable is_expired_reservation
expired-reapable db a i owner late idle = rw owner (rw idle (ground arith))

-- An instance that is READY under address a, which it still holds as RESERVED, loses the address
-- once the reservation time has passed and no job of the instance is QUEUED, RUNNING or in
-- RETRY_WAIT: the reaper makes the address FREE, with no owner, and the instance stays READY.
pub ready-loses_address :
    (db : Db) (a : IpAllocation) (v : VmInstance)
    → Unique allocation_key db.allocations
    → find (has_id a.id) db.allocations ≡ some a
    → find (λ i. i.id == v.id) db.instances ≡ some v
    → is_ready v.state ≡ true
    → a.instance_id ≡ some v.id
    → is_expired_reservation a db.now ≡ true
    → any (λ j. (j.instance_id == v.id) && is_live j.state) db.jobs ≡ false
    → let db' = (Ipam.release_expired_reservations db).1 in
      (find (has_id a.id) db'.allocations ≡ some (reaped db.now a))
      × (find (λ i. i.id == v.id) db'.instances ≡ some v)
unfolding Ipam.release_expired_reservations with_tx
ready-loses_address db a v u found inst r owner late idle = (
  ap (find (has_id a.id)) (reaper-update db u).0
      ∙ find-update_where (reapable db.now db.jobs) (has_id a.id) (reaped db.now) (λ x. refl)
          db.allocations
      ∙ rw (found, is_reapable) refl,
  rw (reap_all-instances (select_where (reapable db.now db.jobs) db.allocations) db) inst,
)
  where
    is_reapable : reapable db.now db.jobs a ≡ true
    is_reapable = expired-reapable db a v.id owner late idle
