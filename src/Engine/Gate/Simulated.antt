-- ===== src/Engine/Gate/Simulated.antt =====
-- internal/pgw/pgw.go: the proof of the NoopAdapter, which cmd/worker/main.go puts in for the gateway.
use text.Mathlib.Text.{◌==◌ as str_eq}
use proxmox_manager.Base.{true, false, ℕ, ◌≡◌, ◌∙◌, refl, sym, ap, Result, ok, err, String, List}
use proxmox_manager.Domain.{InstanceState}
use proxmox_manager.Validation.Rules.{EgressEvidence, EgressInput}
use proxmox_manager.Validation.Egress.{evaluate_egress_lem}
use proxmox_manager.Engine.World.{Outside, World, Call, TransitionContext, TransitionResult}
use proxmox_manager.Engine.Validating.{Settings, egress_checks, validating_egress_handler}
use proxmox_manager.Engine.Gate.{
  EgressGate, asked, unbound, unread, passed, refused, validating_egress_handler_lem,
}

abbrev pub simulated_marker : String
simulated_marker = "SIMULATED-NOOP-NOT-REAL-PGW"

-- EgressProof of NoopAdapter; the fields that it leaves out are zero
abbrev pub noop_proof : ℕ → EgressEvidence
noop_proof client_id = record {
  client_id = client_id;
  mapping_id = 0;
  result = simulated_marker;
  checked_at = "";
  ipv4 = "";
  ipv6 = "";
  policy = simulated_marker;
  direct_leak_packets = 0;
  proxy_health = "";
  rules_generation = 0;
}

-- a failure, or a move to QUARANTINED
abbrev pub FailsOrQuarantines : Result TransitionResult → Type 0
FailsOrQuarantines (ok next) = next.next_state ≡ InstanceState.quarantined
FailsOrQuarantines (err _) = Unit

proof_of : Result EgressEvidence → EgressEvidence
proof_of (ok evidence) = evidence
proof_of (err _) = noop_proof 0

unpassed : ¬ (simulated_marker ≡ "PASS")
unpassed e = let differ : false ≡ true = ap (λ s. str_eq s "PASS") e in cc differ

abbrev egress_input : Settings → TransitionContext → EgressEvidence → EgressInput
egress_input settings t evidence = record {
  evidence = evidence;
  expected_mapping_id = t.job.checkpoint_data.pgw_mapping_id;
  desired_generation = t.job.checkpoint_data.desired_generation;
  deny_ipv6 = settings.deny_ipv6;
  proof_max_age = settings.proof_max_age;
  now = 0;
}

module _ (outside : Outside) (settings : Settings) (t : TransitionContext) (w : World)
    (noop : (calls : List Call)
      → (client_id : ℕ) × (outside.egress calls ≡ ok (noop_proof client_id))) where
  only_refused :
      (r : Result TransitionResult × World)
      → EgressGate outside settings t w r
      → FailsOrQuarantines r.0
  unfolding egress_checks proof_of
  only_refused _ (unbound h) = tt
  only_refused _ (unread e h) = tt
  only_refused _ (passed evidence h all_passed) =
      let (client_id, answered) = noop (asked outside settings t w).calls in
      let given : noop_proof client_id ≡ evidence = ap proof_of (sym answered ∙ h) in
      let result : evidence.result ≡ "PASS" =
        ((evaluate_egress_lem settings.text (egress_input settings t evidence)).0
          all_passed).result in
      absurd (unpassed (ap (λ (p : EgressEvidence). p.result) given ∙ result))
  only_refused _ (refused evidence h n) = refl

  -- Where the gateway is the NoopAdapter, the handler of VALIDATING_EGRESS fails or moves the instance to
  -- QUARANTINED: no instance gets to APPLYING_WORKLOAD.
  pub validating_egress_handler-quarantines :
      FailsOrQuarantines (validating_egress_handler outside settings t w).0
  validating_egress_handler-quarantines =
      only_refused (validating_egress_handler outside settings t w)
        (validating_egress_handler_lem outside settings t w)
