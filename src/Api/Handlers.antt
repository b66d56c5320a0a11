-- ===== src/Api/Handlers.antt =====
-- internal/httpapi: the handlers of the mutations, from the request to the answer.
use Prim.Native.String.{len}
use proxmox_manager.Base.{
  ℕ, String, Bool, ◌||◌, not, Option, none, some, ltb, ◌==◌, if◌then◌else◌, Result, ok, err,
}
use proxmox_manager.Api.{
  Service, Reply, Json, Work, run_idempotent, require_idempotency_key, write_mutation_error,
}
use proxmox_manager.Api.Instances.{
  Body, InstanceCreateRequest, create_work, retry_work, quarantine_work, rebuild_work,
  decommission_work, retry_job_work, promote_work,
}

-- what the handlers take from the libraries: the codec, the number of a scope with a key, SHA-256,
-- the text of an identifier, Sprintf, and the decoding of the two kinds of body
pub record Endpoint (J : Type 0) : Type 0 where
  pub json : Json Body J
  pub pair : String → String → ℕ
  pub request_hash : String → ℕ
  pub id_text : ℕ → String
  pub format : String → ℕ → String
  pub decode_create : String → Option InstanceCreateRequest
  pub decode_reason : String → Option String

pub data Answer (J : Type 0) : Type 0 where
  -- with the header Idempotency-Replayed or not
  replied : Reply J → Bool → Answer J
  -- the status and the code of an ErrorEnvelope
  refused : ℕ → String → Answer J

module _ {J : Type 0} (endpoint : Endpoint J) where
  abbrev pub answer : Result (Reply J × Bool) × Service → Answer J × Service
  answer (ok (reply, replayed), s) = (replied reply replayed, s)
  answer (err e, s) = let (status, code) = write_mutation_error e in (refused status code, s)

  -- a key that is refused comes before everything else
  abbrev pub with_key : String → (Service → Answer J × Service) → Service → Answer J × Service
  with_key header next s =
      if require_idempotency_key header then next s else (refused 400 "INVALID_IDEMPOTENCY_KEY", s)

  abbrev pub run : String → String → String → Work Body → Service → Answer J × Service
  run scope header hashed work s = answer (
      run_idempotent endpoint.json (endpoint.pair scope header) (endpoint.request_hash hashed) work
        s)

  abbrev is_reason : String → Bool
  is_reason reason = not (ltb (len reason) 3 || ltb 1000 (len reason))

  abbrev reason_of : Option String → (Service → Answer J × Service) → Service → Answer J × Service
  reason_of none next s = (refused 400 "INVALID_JSON", s)
  reason_of (some reason) next s =
      if is_reason reason then next s else (refused 400 "INVALID_REASON", s)

  -- readReasonRequest
  unfoldable pub read_reason_request :
      String → (Service → Answer J × Service) → Service → Answer J × Service
  read_reason_request body next s = reason_of (endpoint.decode_reason body) next s

  abbrev pub is_complete : InstanceCreateRequest → Bool
  is_complete req =
      not (req.template_id == 0 || (req.network_segment_id == 0 || req.egress_policy_id == 0))

  abbrev pub decoded : String → String → Option InstanceCreateRequest → Service → Answer J × Service
  decoded header body none s = (refused 400 "INVALID_JSON", s)
  decoded header body (some req) s =
      if is_complete req
      then run "instances.create" header body (create_work endpoint.format req) s
      else (refused 400 "MISSING_FIELD", s)

  unfoldable pub create_instance : String → String → Service → Answer J × Service
  create_instance header body = with_key header (decoded header body (endpoint.decode_create body))

  unfoldable pub retry_instance : String → ℕ → Service → Answer J × Service
  retry_instance header id =
      with_key header (run "instances.retry" header (endpoint.id_text id) (retry_work id))

  -- the hash is that of the body, which does not name the instance
  unfoldable pub quarantine_instance : String → String → ℕ → Service → Answer J × Service
  unfolding read_reason_request
  quarantine_instance header body id =
      with_key header
        (read_reason_request body (run "instances.quarantine" header body (quarantine_work id)))

  unfoldable pub rebuild_instance : String → ℕ → Service → Answer J × Service
  rebuild_instance header id =
      with_key header
        (run "instances.rebuild" header (endpoint.id_text id) (rebuild_work endpoint.format id))

  unfoldable pub decommission_instance : String → String → ℕ → Service → Answer J × Service
  unfolding read_reason_request
  decommission_instance header body id =
      with_key header
        (read_reason_request body (run "instances.decommission" header body (decommission_work id)))

  -- the reason is read before the key
  unfoldable pub retry_job : String → String → ℕ → Service → Answer J × Service
  unfolding read_reason_request
  retry_job header body id =
      read_reason_request body (with_key header (run "jobs.retry" header body (retry_job_work id)))

  unfoldable pub promote_template : String → ℕ → Service → Answer J × Service
  promote_template header id =
      with_key header (run "templates.promote" header (endpoint.id_text id) (promote_work id))
