-- ===== src/Examples/Replay.antt =====
-- An expired key of a request.
use proxmox_manager.Base.{◌≡◌, refl, [], ◌∷◌, some, err, not_found, find}
use proxmox_manager.Idempotency.{IdempotencyRecord, Keys, store}
use proxmox_manager.Idempotency.Outcome.{store_lem}

abbrev old : IdempotencyRecord
old = record {
  key = 1;
  request_hash = 7;
  response_status = some 202;
  response_body = "{}";
  expires_at = 50;
}

abbrev keys : Keys
keys = record { now = 100; records = old ∷ [] }

store_lem_example : store (record old { expires_at = 200 }) keys ≡ (err not_found, keys)
store_lem_example =
    store_lem (record old { expires_at = 200 }) old keys (tt, tt) (unfold find in refl)
