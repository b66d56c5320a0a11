-- ===== src/Api/Run.antt =====
-- What a run of RunIdempotent commits, and what it leaves where it fails.
use proxmox_manager.Base.{
  ℕ, String, ◌<◌, ltb, arith, ◌≡◌, ◌⊎◌, refl, sym, ap, subst, inl, inr, Bool, true, false, ◌&&◌,
  none, some, List, [], ◌∷◌, ◌++◌, find, any, update_where, Bool-cases, Option-cases, Result-cases,
  ==_refl, ◌==◌, Result, ok, err, Error, not_found,
}
use proxmox_manager.Idempotency.{IdempotencyRecord, Keys, has_key, is_live, get, store, upsert}
use proxmox_manager.Api.{
  Resources, Service, Reply, Json, Work, keys_of, stored, transact, execute, fresh, run_idempotent,
}

-- a row whose key is in no row before it is read back until it expires
pub live-append :
    (now : ℕ) (rec : IdempotencyRecord) (xs : List IdempotencyRecord)
    → any (has_key rec.key) xs ≡ false
    → now < rec.expires_at
    → find (is_live now rec.key) (xs ++ rec ∷ []) ≡ some rec
unfolding find any
live-append now rec [] h lt =
    let same : (rec.key == rec.key) ≡ true = ==_refl rec.key in
    let live : ltb now rec.expires_at ≡ true = ground arith in rw same (rw live refl)
live-append now rec (x ∷ xs) h lt = elim (Bool-cases (has_key rec.key x)) [
  | inl t ↦ let bad : true ≡ false = rw t at h in cc bad
  | inr t ↦ rw t (live-append now rec xs (rw t at h) lt)
]

-- an UPDATE that keeps the hashes finds no live row where there was none
live-update :
    (now k : ℕ) (p : IdempotencyRecord → Bool) (h : ℕ) (xs : List IdempotencyRecord)
    → find (is_live now k) xs ≡ none
    → find (is_live now k) (update_where p (λ r. record r { request_hash = h }) xs) ≡ none
unfolding find update_where
live-update now k p h [] e = refl
live-update now k p h (x ∷ xs) e = ground (arith, live-update now k p h xs)

-- Store succeeds on a key with no live row only by inserting the row
pub store-inserts :
    (rec : IdempotencyRecord) (s : Keys)
    → find (is_live s.now rec.key) s.records ≡ none
    → (store rec s).0 ≡ ok tt
    → (any (has_key rec.key) s.records ≡ false) × ((store rec s).1.records ≡ s.records ++ rec ∷ [])
unfolding store upsert
store-inserts rec s none_live done = elim (Bool-cases (any (has_key rec.key) s.records)) [
  | inl t ↦
      let gone : find (is_live s.now rec.key) (
            update_where (λ r. has_key rec.key r && r.request_hash == rec.request_hash)
              (λ r. record r { request_hash = rec.request_hash }) s.records)
          ≡ none =
        live-update s.now rec.key _ rec.request_hash s.records none_live in
      let bad : Path (Result (Unit {0})) (err not_found) (ok tt) = rw gone at (rw t at done) in
      cc bad
  | inr t ↦ (t, rw t refl)
]

module _ {B J : Type 0} (json : Json B J) (key hash : ℕ) where
  -- what the transaction did, where it was committed
  abbrev pub Committed : Work B → Service → Reply B → Service → Type 0
  Committed work s reply s' =
      (text : String) × (after : Resources) × (work s.resources.db s.resources ≡ (ok reply, after))
      × (json.marshal reply.body ≡ ok text)
      × ((store (stored json key hash s.resources.db.now reply text) (keys_of s)).0 ≡ ok tt)
      × (s' ≡ record {
        resources = after;
        records =
            (store (stored json key hash s.resources.db.now reply text) (keys_of s)).1.records;
      })

  abbrev pub RolledBack : Service → Service → Type 0
  RolledBack s s' = (s'.records ≡ s.records) × (s'.resources.db ≡ s.resources.db)

  pub execute_lem :
      (work : Work B) (s : Service)
      → ((reply : Reply B) × (s' : Service) × (execute json key hash work s ≡ (ok reply, s'))
          × Committed work s reply s')
        ⊎ ((e : Error) × (s' : Service) × (execute json key hash work s ≡ (err e, s'))
            × RolledBack s s')
  unfolding execute transact
  execute_lem work s =
      let after : Resources = (work s.resources.db s.resources).1 in
      elim (Result-cases (work s.resources.db s.resources).0) [
        | inr (e, r) ↦ rw r (inr (e, _, refl, (refl, refl)))
        | inl (reply, r) ↦ elim (Result-cases (json.marshal reply.body)) [
          | inr (e, m) ↦ rw r (rw m (inr (e, _, refl, (refl, refl))))
          | inl (text, m) ↦
              let rec : IdempotencyRecord = stored json key hash s.resources.db.now reply text in
              elim (Result-cases (store rec (keys_of s)).0) [
                | inr (e, t) ↦ rw r (rw m (rw t (inr (e, _, refl, (refl, refl)))))
                | inl (_, t) ↦
                    rw r (rw m (rw t (inl (reply, _, refl, (text, after, refl, m, t, refl)))))
              ]
        ]
      ]

  pub is_not_found-get :
      (k : Keys) → find (is_live k.now key) k.records ≡ none → (get key k).0 ≡ err not_found
  unfolding get
  is_not_found-get k e = rw e refl

  pub get-found :
      (k : Keys) (r : IdempotencyRecord)
      → find (is_live k.now key) k.records ≡ some r
      → (get key k).0 ≡ ok r
  unfolding get
  get-found k r e = rw e refl

  -- A run that fails leaves the table of keys and every other table as they were: only a number of
  -- a host name may be used up.
  pub run_idempotent-RolledBack :
      (work : Work B) (s s' : Service) (e : Error)
      → run_idempotent json key hash work s ≡ (err e, s')
      → RolledBack s s'
  unfolding run_idempotent
  run_idempotent-RolledBack work s s' e failed =
      elim (Option-cases (find (is_live s.resources.db.now key) s.records)) [
        | inr (r, live) ↦
            let same : Path Service s s' =
              ap (λ o. o.1) (rw (get-found (keys_of s) r live) at failed) in
            (ap (λ x. x.records) (sym same), ap (λ x. x.resources.db) (sym same))
        | inl free ↦ elim (execute_lem work s) [
          | inl (reply, after, x, _) ↦
              let bad : Path (Result (Reply J × Bool) × Service)
                  (fresh json key hash (ok reply, after)) (err e, s') =
                rw x at (rw (is_not_found-get (keys_of s) free) at failed) in
              cc (ap (λ o. o.0) bad)
          | inr (_, after, x, back) ↦
              let same : after ≡ s' =
                ap (λ o. o.1) (rw x at (rw (is_not_found-get (keys_of s) free) at failed)) in
              subst (RolledBack s) same back
        ]
      ]
