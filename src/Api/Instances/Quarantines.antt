-- ===== src/Api/Instances/Quarantines.antt =====
-- A quarantine that the API asks for.
use text.Mathlib.Text.{◌==◌ as str_eq}
use Prim.Native.String.{len}
use proxmox_manager.Base.{
  ℕ, String, ◌+◌, ◌<◌, ◌≡◌, refl, ap, Bool, true, false, some, [], ◌∷◌, ◌++◌, find, update_where,
  count_where-found, Bool-cases, inl, inr, Result, ok, err, failure, ltb, not, ◌||◌,
}
use proxmox_manager.Domain.{VmInstance, InstanceState, AuditAction}
use proxmox_manager.Instances
use proxmox_manager.Engine.Step.{append_audit}
use proxmox_manager.Api.{Resources, Service, Reply, idempotency_ttl, require_idempotency_key}
use proxmox_manager.Api.Replays.{run_idempotent-replays}
use proxmox_manager.Api.Instances.{Body, quarantine_work, enrich}
use proxmox_manager.Api.Handlers.{
  Endpoint, Answer, replied, refused, answer, read_reason_request, quarantine_instance,
}

-- Whatever the state of an instance, RETIRED included, its quarantine succeeds: it is in
-- QUARANTINED, one version on, with one audit event. The row of the answer is the one from before.
quarantine_work_lem :
    (id : ℕ) (s : Resources) (inst : VmInstance)
    → find (Instances.has_id id) s.db.instances ≡ some inst
    → quarantine_work id s.db s ≡ (
      ok (record { status = 202; body = enrich s.db inst }),
      record s {
        db = record s.db {
          instances =
              update_where
                (Instances.has_id id)
                (Instances.in_state InstanceState.quarantined)
                s.db.instances;
          audit = s.db.audit ++ record { resource_id = id; action = AuditAction.quarantine } ∷ [];
        };
      },
    )
unfolding quarantine_work Instances.get Instances.update_state Instances.update_required
    append_audit
quarantine_work_lem id s inst found =
    rw found (rw (count_where-found (Instances.has_id id) s.db.instances inst found) refl)

module _ {J : Type 0} (endpoint : Endpoint J)
    (reads_back : (b : Body) (text : String)
      → endpoint.json.marshal b ≡ ok text
      → (str_eq text "" ≡ false)
        × (endpoint.json.unmarshal text ≡ ok (endpoint.json.value b))) where
  as_result : Answer J → Result (Reply J × Bool)
  as_result (replied reply replayed) = ok (reply, replayed)
  as_result (refused _ _) = err failure

  answer-replied :
      (r : Result (Reply J × Bool)) (w s' : Service) (reply : Reply J) (b : Bool)
      → answer endpoint (r, w) ≡ (replied reply b, s')
      → Path (Result (Reply J × Bool) × Service) (r, w) (ok (reply, b), s')
  unfolding as_result
  answer-replied (ok _) w s' reply b e = ap (λ o. (as_result o.0, o.1)) e
  answer-replied (err x) w s' reply b e =
      let bad : Path (Answer J) _ (replied reply b) = ap (λ o. o.0) e in cc bad

  -- Where encoding/json reads a body back as it was written: after the quarantine of one instance,
  -- until the key expires, a request with the key and the same body for any instance gets the first
  -- one's answer, as a replay, and nothing is done to the other instance.
  pub quarantine_instance-crosses :
      (header body reason : String) (id : ℕ) (s s' : Service) (reply : Reply J)
      → endpoint.decode_reason body ≡ some reason
      → quarantine_instance endpoint header body id s ≡ (replied reply false, s')
      → (later : Service) → later.records ≡ s'.records
      → later.resources.db.now < s.resources.db.now + idempotency_ttl
      → (other : ℕ)
      → quarantine_instance endpoint header body other later ≡ (replied reply true, later)
  unfolding quarantine_instance read_reason_request
  quarantine_instance-crosses header body reason id s s' reply decoded done later same early other =
      elim (Bool-cases (require_idempotency_key header)) [
        | inr k ↦
            let bad : Path (Answer J) _ (replied reply false) = ap (λ o. o.0) (rw k at done) in
            cc bad
        | inl k ↦ elim (Bool-cases (not (ltb (len reason) 3 || ltb 1000 (len reason)))) [
          | inr r ↦
              let bad : Path (Answer J) _ (replied reply false) =
                ap (λ o. o.0) (rw r at (rw decoded at (rw k at done))) in
              cc bad
          | inl r ↦
              let first =
                answer-replied _ _ s' reply false (rw r at (rw decoded at (rw k at done))) in
              let second =
                (run_idempotent-replays endpoint.json (endpoint.pair "instances.quarantine" header)
                    (endpoint.request_hash body) reads_back (quarantine_work id) s s' reply first
                    later same early).0
                  (quarantine_work other) in
              rw k (rw decoded (rw r (rw second refl)))
        ]
      ]
