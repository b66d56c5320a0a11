-- ===== src/Engine/Validating.antt =====
-- internal/stateengine/handlers_validation.go: from WAITING_GUEST to APPLYING_WORKLOAD.
use text.Mathlib.Text.{◌==◌ as str_eq}
use proxmox_manager.Base.{
  ℕ, String, Bool, ◌&&◌, not, List, [], ◌∷◌, ◌==◌, if◌then◌else◌, Exec, pure, guard, failure, ◌>>=◌,
  ◌>>◌,
}
use proxmox_manager.Domain.{
  CheckpointData, InstanceState, IpAllocation, NetworkSegment, RunType, ValidationResult, is_pass,
  validating_egress, applying_workload,
}
use proxmox_manager.Ipam
use proxmox_manager.Store.{Db}
use proxmox_manager.Validation.Checks.{Check, Facts, canonical_ssh_fingerprint, build_evidence}
use proxmox_manager.Validation.Rules.{
  Text, DuplicateMatch, IdentityInput, EgressEvidence, evaluate_identity_and_network,
  evaluate_egress,
}
use proxmox_manager.Engine.World.{
  Outside, World, TransitionContext, TransitionResult, Handler, ask, on_db, moved, collect_facts,
  egress_proof,
}
use proxmox_manager.Engine.Evidence.{get_segment, find_duplicate_by, create_observation, create_run}
use proxmox_manager.Engine.Quarantine.{suspend, keep_address}

-- The configuration, the digest of a machine id (validation.IdentityDigester) and the text that
-- PostgreSQL gives for an address. `proof_max_age` is after its default.
pub record Settings : Type 0 where
  pub text : Text
  pub digest : String → String
  pub format_address : ℕ → String
  pub block_retired_duplicate : Bool
  pub require_single_nic : Bool
  pub require_single_default_route : Bool
  pub deny_ipv6 : Bool
  pub proof_max_age : ℕ

abbrev pub expected_macs : String → List String
expected_macs mac = if str_eq mac "" then [] else mac ∷ []

unfoldable pub identity_input :
    Settings
    → TransitionContext
    → Facts
    → IpAllocation
    → NetworkSegment
    → List DuplicateMatch
    → List DuplicateMatch
    → IdentityInput
identity_input settings t facts alloc segment machine_dup ssh_dup = record {
  facts = facts;
  machine_id_digest = settings.digest facts.machine_id;
  machine_id_duplicates = machine_dup;
  ssh_fingerprint_duplicates = ssh_dup;
  block_retired_duplicate = settings.block_retired_duplicate;
  expected_hostname = t.instance_row.hostname;
  expected_mac_addresses = expected_macs t.job.checkpoint_data.nic0_mac;
  expected_ipv4 = settings.format_address alloc.address;
  expected_gateway_v4 = segment.gateway;
  require_single_nic = settings.require_single_nic;
  require_single_default_route = settings.require_single_default_route;
  deny_ipv6_default_route = str_eq segment.ipv6_policy "deny";
}

-- the observation and the run, in the step's transaction
unfoldable pub identity_evidence :
    Settings → TransitionContext → Facts → ValidationResult → Exec Db (Unit {0})
identity_evidence settings t facts result = do
  create_observation t.instance_row.id t.instance_row.generation (settings.digest facts.machine_id)
      (canonical_ssh_fingerprint facts)
  create_run t.instance_row.id t.job.id RunType.identity result

unfoldable pub egress_checks : Settings → TransitionContext → EgressEvidence → List Check
egress_checks settings t evidence = evaluate_egress settings.text (record {
  evidence = evidence;
  expected_mapping_id = t.job.checkpoint_data.pgw_mapping_id;
  desired_generation = t.job.checkpoint_data.desired_generation;
  deny_ipv6 = settings.deny_ipv6;
  proof_max_age = settings.proof_max_age;
  now = 0;
})

module _ (outside : Outside) where
  -- the next state, and what is done at once where the result is not PASS
  unfoldable pub judge : CheckpointData → Bool → InstanceState → Exec World InstanceState
  unfolding suspend keep_address
  judge cp passed next =
      if passed
      then pure next
      else (do suspend outside cp; keep_address outside cp; pure InstanceState.quarantined)

  unfoldable pub ssh_duplicates : ℕ → String → Exec World (List DuplicateMatch)
  unfolding find_duplicate_by
  ssh_duplicates instance_id fp =
      if str_eq fp ""
      then pure []
      else on_db (find_duplicate_by (λ o. str_eq o.ssh_host_fingerprint fp) instance_id)

  -- the transition for the checks that were made
  unfoldable pub judge_identity :
      Settings → TransitionContext → Facts → List Check → Exec World TransitionResult
  unfolding judge identity_evidence
  judge_identity settings t facts checks = do
    next ← judge t.job.checkpoint_data (is_pass (build_evidence checks)) validating_egress
    pure (record (moved next t.job.checkpoint_data) {
      persist_evidence = identity_evidence settings t facts (build_evidence checks);
    })

  unfoldable pub validating_identity_handler : Settings → Handler
  unfolding judge_identity ssh_duplicates
  validating_identity_handler settings t = do
    guard (not (t.job.checkpoint_data.vmid == 0)) failure
    facts ← ask outside.facts (collect_facts t.job.checkpoint_data.node t.job.checkpoint_data.vmid)
    alloc ← on_db (Ipam.get t.job.checkpoint_data.ip_allocation_id)
    segment ← on_db (get_segment alloc.segment_id)
    machine_dup ← on_db (
        find_duplicate_by (λ o. str_eq o.machine_id_digest (settings.digest facts.machine_id))
          t.instance_row.id)
    ssh_dup ← ssh_duplicates t.instance_row.id (canonical_ssh_fingerprint facts)
    judge_identity settings t facts (
        evaluate_identity_and_network settings.text
          (identity_input settings t facts alloc segment machine_dup ssh_dup))

  unfoldable pub judge_egress : TransitionContext → List Check → Exec World TransitionResult
  unfolding judge create_run
  judge_egress t checks = do
    next ← judge t.job.checkpoint_data (is_pass (build_evidence checks)) applying_workload
    pure (record (moved next t.job.checkpoint_data) {
      persist_evidence =
          create_run t.instance_row.id t.job.id RunType.egress (build_evidence checks);
    })

  -- the mapping is in the checkpoint, so that `judge` suspends it
  unfoldable pub validating_egress_handler : Settings → Handler
  unfolding judge_egress egress_checks
  validating_egress_handler settings t = do
    guard
        (not (t.job.checkpoint_data.pgw_client_id == 0)
          && not (t.job.checkpoint_data.pgw_mapping_id == 0))
        failure
    evidence ← ask outside.egress (egress_proof t.job.checkpoint_data.pgw_client_id)
    judge_egress t (egress_checks settings t evidence)
