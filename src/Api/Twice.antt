-- ===== src/Api/Twice.antt =====
-- Two requests with one key that both look before either has committed.
use proxmox_manager.Base.{ℕ, String, ltb, ◌≡◌, refl, true, some, find, ◌==◌, ==_iff, ok, Unique}
use proxmox_manager.Idempotency.{IdempotencyRecord, has_key, store}
use proxmox_manager.Idempotency.Outcome.{record_key, store_lem}
use proxmox_manager.Api.{Resources, Service, Reply, Json, Work, keys_of, stored, transact, execute}

-- The transaction of a request does not look at its key again: where meanwhile a request with the
-- key and the same hash has been committed and its row is live, the work is run all the same and
-- what it does is committed, with the rows of the keys as they were.
pub execute-again :
    {B J : Type 0} (json : Json B J) (key hash : ℕ) (work : Work B) (s : Service)
    (existing : IdempotencyRecord) (reply : Reply B) (after : Resources) (text : String)
    → Unique record_key s.records
    → find (has_key key) s.records ≡ some existing
    → existing.request_hash ≡ hash
    → ltb s.resources.db.now existing.expires_at ≡ true
    → work s.resources.db s.resources ≡ (ok reply, after)
    → json.marshal reply.body ≡ ok text
    → execute json key hash work s ≡ (ok reply, record { resources = after; records = s.records })
unfolding execute transact
execute-again json key hash work s existing reply after text unique found same live done m =
    let rec : IdempotencyRecord = stored json key hash s.resources.db.now reply text in
    let hashes : (existing.request_hash == hash) ≡ true =
      (==_iff existing.request_hash hash).1 same in
    let kept : store rec (keys_of s) ≡ (ok tt, keys_of s) =
      rw (store_lem rec existing (keys_of s) unique found) (rw live (rw hashes refl)) in
    rw done (rw m (rw kept refl))
