-- ===== src/Idempotency.antt =====
-- internal/storage/idempotency.go: the keys of the requests. The pair of scope and key, the
-- table's primary key, is one number, as is the hash. The stored body is a text, empty for NULL.
pub mod Outcome
use proxmox_manager.Base.{
  ℕ, String, Bool, ◌&&◌, List, [], ◌∷◌, ◌++◌, Option, none, some, ltb, ◌==◌, if◌then◌else◌, any,
  find, update_where, Result, ok, err, Exec, Error, not_found, idempotency_conflict, or_raise,
}

pub record IdempotencyRecord : Type 0 where
  pub key : ℕ
  pub request_hash : ℕ
  pub response_status : Option ℕ
  pub response_body : String
  pub expires_at : ℕ

pub record Keys : Type 0 where
  pub now : ℕ
  pub records : List IdempotencyRecord

abbrev pub has_key : ℕ → IdempotencyRecord → Bool
has_key k r = r.key == k

-- WHERE scope = $1 AND key = $2 AND expires_at > now()
abbrev pub is_live : ℕ → ℕ → IdempotencyRecord → Bool
is_live now k r = has_key k r && ltb now r.expires_at

unfoldable pub get : ℕ → Exec Keys IdempotencyRecord
get k s = or_raise not_found (find (is_live s.now k) s.records) s

-- ON CONFLICT (scope, key) DO UPDATE SET request_hash … WHERE request_hash is the same
unfoldable pub upsert : IdempotencyRecord → List IdempotencyRecord → List IdempotencyRecord
upsert rec records =
    if any (has_key rec.key) records
    then update_where (λ r. has_key rec.key r && r.request_hash == rec.request_hash)
        (λ r. record r { request_hash = rec.request_hash }) records
    else records ++ rec ∷ []

-- the row read back against the request's hash
abbrev pub verdict : IdempotencyRecord → Option IdempotencyRecord → Result (Unit {0})
verdict rec none = err not_found
verdict rec (some existing) =
    if existing.request_hash == rec.request_hash then ok tt else err idempotency_conflict

unfoldable pub store : IdempotencyRecord → Exec Keys (Unit {0})
unfolding upsert
store rec s =
    let records = upsert rec s.records in
    (verdict rec (find (is_live s.now rec.key) records), record s { records = records })
