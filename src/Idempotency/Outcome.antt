-- ===== src/Idempotency/Outcome.antt =====
-- What Store does with a key, by the row that has it.
use mathlib.Core.Option.{some-injective}
use proxmox_manager.Base.{
  ℕ, ltb, ◌≡◌, refl, ap, inl, inr, true, false, ◌&&◌, List, [], ◌∷◌, none, some, arith, Bool-cases,
  any, find, update_where, ◌==◌, if◌then◌else◌, ok, err, not_found, idempotency_conflict, Unique,
  All,
}
use proxmox_manager.Idempotency.{IdempotencyRecord, Keys, has_key, is_live, upsert, store}

abbrev pub record_key : IdempotencyRecord → ℕ
record_key r = r.key

-- the SET writes what is there
upsert-found :
    (rec : IdempotencyRecord) (xs : List IdempotencyRecord)
    → update_where
        (λ r. has_key rec.key r && r.request_hash == rec.request_hash)
        (λ r. record r { request_hash = rec.request_hash })
        xs
      ≡ xs
unfolding update_where
upsert-found rec [] = refl
upsert-found rec (x ∷ xs) = rw (upsert-found rec xs) (ground (arith))

find-any :
    (k : ℕ) (xs : List IdempotencyRecord) (r : IdempotencyRecord)
    → find (has_key k) xs ≡ some r
    → any (has_key k) xs ≡ true
unfolding find any
find-any k [] r e = cc
find-any k (x ∷ xs) r e = elim (Bool-cases (has_key k x)) [
  | inl t ↦ rw t refl
  | inr t ↦ rw t (find-any k xs r (rw t at e))
]

live_row-none :
    (now k : ℕ) (x : IdempotencyRecord) (xs : List IdempotencyRecord)
    → has_key k x ≡ true
    → All (λ y. (y.key == x.key) ≡ false) xs
    → find (is_live now k) xs ≡ none
unfolding find
live_row-none now k x [] t h = refl
live_row-none now k x (y ∷ ys) t h =
    let d : has_key k y ≡ false = ground (arith, h.0) in rw d (live_row-none now k x ys t h.1)

-- where keys are unique, the live row with a key is the row with it, if that is live
live_row :
    (now k : ℕ) (xs : List IdempotencyRecord) (r : IdempotencyRecord)
    → Unique record_key xs
    → find (has_key k) xs ≡ some r
    → find (is_live now k) xs ≡ (if ltb now r.expires_at then some r else none)
unfolding find
live_row now k [] r u e = cc
live_row now k (x ∷ xs) r u e = elim (Bool-cases (has_key k x)) [
  | inl t ↦
      let same : x ≡ r = some-injective x r (rw t at e) in
      rw t (
        rw (live_row-none now k x xs t u.0)
          (ap (λ z. if ltb now z.expires_at then some z else none) same))
  | inr t ↦ rw t (live_row now k xs r u.1 (rw t at e))
]

-- Where keys are unique and a row has the request's key, Store changes no row. It succeeds where
-- that row has not expired and has the request's hash, reports ErrIdempotencyConflict where it has
-- not expired and has another hash, and reports ErrNotFound where it has expired, whatever the
-- request: an expired key cannot be used again.
pub store_lem :
    (rec existing : IdempotencyRecord) (s : Keys)
    → Unique record_key s.records
    → find (has_key rec.key) s.records ≡ some existing
    → store rec s ≡ (
      (if ltb s.now existing.expires_at
          then (if existing.request_hash == rec.request_hash
              then ok tt
              else err idempotency_conflict)
          else err not_found),
      s,
    )
unfolding store
store_lem rec existing s u e = rw same (
    rw (live_row s.now rec.key s.records existing u e)
      (elim (Bool-cases (ltb s.now existing.expires_at)) [ inl t ↦ rw t refl | inr t ↦ rw t refl ]))
  where
    same : upsert rec s.records ≡ s.records
    same = unfold upsert in rw (find-any rec.key s.records existing e) (upsert-found rec s.records)
