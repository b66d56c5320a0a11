-- ===== src/Examples/Requests.antt =====
-- The API at the sample: a request, and another with its key.
use text.Mathlib.Text.{◌==◌ as str_eq}
use proxmox_manager.Base.{
  ℕ, String, ◌≡◌, refl, ap, true, false, ◌++◌, count_where, any, some, none, [], ◌∷◌, find, Result,
  ok, err, not_found, arith,
}
use proxmox_manager.Domain.{draft, unknown}
use proxmox_manager.Instances
use proxmox_manager.Templates
use proxmox_manager.Engine.Step.{append_audit}
use proxmox_manager.Idempotency.{IdempotencyRecord, get, store}
use proxmox_manager.Api.{
  Resources, Service, Reply, Json, transact, execute, run_idempotent, require_idempotency_key,
}
use proxmox_manager.Api.Run.{RolledBack, run_idempotent-RolledBack}
use proxmox_manager.Api.Replays.{run_idempotent-replays}
use proxmox_manager.Api.Twice.{execute-again}
use proxmox_manager.Api.Instances.{
  Body, template_row, create_template_work, InstanceCreateRequest, quarantine_work,
  decommission_work,
}
use proxmox_manager.Api.Instances.Quarantines.{quarantine_instance-crosses}
use proxmox_manager.Api.Handlers.{Endpoint, replied, read_reason_request, quarantine_instance}
use proxmox_manager.Examples.Sample.{sample, old_template}

abbrev resources : Resources
resources = record { db = sample; sequences = [] }

abbrev service : Service
service = record { resources = resources; records = [] }

abbrev json : Json Body String
json = record { marshal = λ _. ok "{}"; unmarshal = λ t. ok t; value = λ _. "{}"; null = "" }

abbrev text_of : Result String → String
text_of (ok t) = t
text_of (err _) = ""

reads_back :
    (b : Body) (text : String)
    → json.marshal b ≡ ok text
    → (str_eq text "" ≡ false) × (json.unmarshal text ≡ ok (json.value b))
reads_back b text e = let same : "{}" ≡ text = ap text_of e in rw⁻¹ same (refl, refl)

abbrev format : String → ℕ → String
format prefix n = prefix

abbrev request : InstanceCreateRequest
request = record {
  logical_name = "db";
  template_id = 1;
  network_segment_id = 1;
  egress_policy_id = 4;
  adapter = none;
}

run_idempotent-RolledBack_example : RolledBack json 1 7 service service
unfolding run_idempotent execute transact decommission_work Instances.get find get
run_idempotent-RolledBack_example =
    run_idempotent-RolledBack json 1 7 (decommission_work 9) service service not_found refl

abbrev quarantined : Service
quarantined = (run_idempotent json 1 7 (quarantine_work 5) service).1

abbrev reply : Reply String
reply = record { status = 202; body = "{}" }

run_idempotent-replays_example :
    (run_idempotent json 1 7 (quarantine_work 5) quarantined ≡ (ok (reply, true), quarantined))
unfolding run_idempotent execute transact quarantine_work Instances.get find get
    Instances.update_state append_audit store count_where any
run_idempotent-replays_example =
    (run_idempotent-replays json 1 7 reads_back (quarantine_work 5) service quarantined reply refl
        quarantined refl (omega arith)).0
      (quarantine_work 5)

abbrev stored_row : IdempotencyRecord
stored_row = record {
  key = 1;
  request_hash = 7;
  response_status = some 202;
  response_body = "{}";
  expires_at = 200;
}

execute-again_example :
    execute json 1 7
      (create_template_work old_template)
      (record service { records = stored_row ∷ [] })
    ≡ (
      ok (record {
        status = 201;
        body =
            template_row
              (record old_template { id = 50; state = draft; validation_status = unknown });
      }),
      record {
        resources = record resources {
          db = record sample {
            next_id = 51;
            templates =
                sample.templates
                ++ (record old_template { id = 50; state = draft; validation_status = unknown })
                  ∷ [];
          };
        };
        records = stored_row ∷ [];
      },
    )
unfolding create_template_work Templates.create find
execute-again_example =
    execute-again json 1 7 (create_template_work old_template)
      (record service { records = stored_row ∷ [] }) stored_row _ _ "{}" (tt, tt) refl refl refl
      refl refl

abbrev endpoint : Endpoint String
endpoint = record {
  json = json;
  pair = λ _ _. 1;
  request_hash = λ _. 7;
  id_text = λ _. "id";
  format = format;
  decode_create = λ _. some request;
  decode_reason = λ body. some body;
}

abbrev crossed : Service
crossed = (quarantine_instance endpoint "key-0001" "broken" 5 service).1

quarantine_instance-crosses_example :
    quarantine_instance endpoint "key-0001" "broken" 6 crossed ≡ (replied reply true, crossed)
unfolding quarantine_instance read_reason_request require_idempotency_key run_idempotent execute
    transact quarantine_work Instances.get find get Instances.update_state append_audit store
    count_where any
quarantine_instance-crosses_example =
    quarantine_instance-crosses endpoint reads_back "key-0001" "broken" "broken" 5 service crossed
      reply refl refl crossed refl (omega arith) 6
