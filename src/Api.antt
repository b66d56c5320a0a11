-- ===== src/Api.antt =====
-- internal/httpapi/idempotency.go and responses.go: a mutation of the API, run once for a key.
-- `work` reads through the pool and writes in the transaction. Its reads see what is committed: the
-- database from before the transaction, which is its first argument. The counters of host names
-- are written through the pool too, so that no rollback takes them back.
pub mod Run
pub mod Replays
pub mod Twice
pub mod Instances
pub mod Handlers
pub mod Pages
use text.Mathlib.Text.{◌==◌ as str_eq}
use Prim.Native.String.{len}
use proxmox_manager.Base.{
  ℕ, String, ◌+◌, Bool, true, false, ◌&&◌, ◌||◌, not, Option, none, some, List, ltb, if◌then◌else◌,
  ◌==◌, Exec, Result, ok, err, Error, not_found, idempotency_conflict, invalid_transition,
  capacity_exhausted, already_leased, lease_lost, version_conflict, pure, lift, ◌>>=◌, ◌>>◌,
}
use proxmox_manager.Store.{Db}
use proxmox_manager.Ipam.Hostname.{Sequence}
use proxmox_manager.Idempotency.{IdempotencyRecord, Keys, get, store}

pub record Resources : Type 0 where
  pub db : Db
  pub sequences : List Sequence

pub record Service : Type 0 where
  pub resources : Resources
  pub records : List IdempotencyRecord

pub record Reply (B : Type 0) : Type 0 where
  pub status : ℕ
  pub body : B

-- encoding/json: a body as text, a text as a value, and the value that a body is as JSON
pub record Json (B J : Type 0) : Type 0 where
  pub marshal : B → Result String
  pub unmarshal : String → Result J
  pub value : B → J
  pub null : J

abbrev pub Work : Type 0 → Type 0
Work B = Db → Exec Resources (Reply B)

-- 24 hours
abbrev pub idempotency_ttl : ℕ
idempotency_ttl = 86400000000000

abbrev pub keys_of : Service → Keys
keys_of s = record { now = s.resources.db.now; records = s.records }

-- in a transaction, whose `now()` is the time at which it began
abbrev pub on_keys : {A : Type 0} → ℕ → Exec Keys A → Exec Service A
on_keys now m s =
    let (r, k) = m (record { now = now; records = s.records }) in
    (r, record s { records = k.records })

abbrev pub on_resources : {A : Type 0} → Exec Resources A → Exec Service A
on_resources m s = let (r, x) = m s.resources in (r, record s { resources = x })

-- an error takes back what the transaction wrote
abbrev pub settled : {A : Type 0} → Service → Result A × Service → Result A × Service
settled s (ok a, s') = (ok a, s')
settled s (err e, s') =
    (err e, record s { resources = record s.resources { sequences = s'.resources.sequences } })

module _ {B J : Type 0} (json : Json B J) (key request_hash : ℕ) where
  abbrev pub stored : ℕ → Reply B → String → IdempotencyRecord
  stored now reply text = record {
    key = key;
    request_hash = request_hash;
    response_status = some reply.status;
    response_body = text;
    expires_at = now + idempotency_ttl;
  }

  -- what the transaction does
  unfoldable pub transact : Work B → Db → Exec Service (Reply B)
  transact work committed = do
    reply ← on_resources (work committed)
    text ← lift (json.marshal reply.body)
    on_keys committed.now (store (stored committed.now reply text))
    pure reply

  unfoldable pub execute : Work B → Exec Service (Reply B)
  unfolding transact
  execute work s = settled s (transact work s.resources.db s)

  abbrev pub stored_body : String → Result J
  stored_body text = if str_eq text "" then ok json.null else json.unmarshal text

  abbrev status_or_ok : Option ℕ → ℕ
  status_or_ok none = 200
  status_or_ok (some n) = n

  abbrev with_body : Option ℕ → Result J → Result (Reply J × Bool)
  with_body status (ok body) = ok (record { status = status_or_ok status; body = body }, true)
  with_body status (err e) = err e

  unfoldable pub replay : IdempotencyRecord → Result (Reply J × Bool)
  replay existing =
      if existing.request_hash == request_hash
      then with_body existing.response_status (stored_body existing.response_body)
      else err idempotency_conflict

  abbrev pub is_not_found : Error → Bool
  is_not_found not_found = true
  is_not_found _ = false

  abbrev pub fresh : Result (Reply B) × Service → Result (Reply J × Bool) × Service
  fresh (ok reply, s) =
      (ok (record { status = reply.status; body = json.value reply.body }, false), s)
  fresh (err e, s) = (err e, s)

  abbrev pub looked_up :
      Work B → Result IdempotencyRecord → Service → Result (Reply J × Bool) × Service
  looked_up work (ok existing) s = (replay existing, s)
  looked_up work (err e) s = if is_not_found e then fresh (execute work s) else (err e, s)

  unfoldable pub run_idempotent : Work B → Exec Service (Reply J × Bool)
  unfolding execute replay
  run_idempotent work s = looked_up work (get key (keys_of s)).0 s

-- len(key) < 8 || len(key) > 128 is refused
unfoldable pub require_idempotency_key : String → Bool
require_idempotency_key key = not (ltb (len key) 8 || ltb 128 (len key))

-- the status and the code of the error's envelope
unfoldable pub write_mutation_error : Error → ℕ × String
write_mutation_error not_found = (404, "NOT_FOUND")
write_mutation_error idempotency_conflict = (409, "IDEMPOTENCY_CONFLICT")
write_mutation_error invalid_transition = (409, "INVALID_TRANSITION")
write_mutation_error capacity_exhausted = (409, "CAPACITY_UNAVAILABLE")
write_mutation_error already_leased = (409, "CONFLICT")
write_mutation_error lease_lost = (409, "CONFLICT")
write_mutation_error version_conflict = (409, "VERSION_CONFLICT")
write_mutation_error _ = (500, "INTERNAL")
