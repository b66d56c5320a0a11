-- ===== src/Engine/Gate/Identity.antt =====
-- The gate of the identity and network rules.
use text.Mathlib.Text.{◌==◌ as str_eq}
use proxmox_manager.Base.{
  ◌++◌, String, ◌≡◌, ◌≢◌, refl, inl, inr, true, false, some, none, List, [], ◌∷◌, Bool-cases,
  Option-cases, Result-cases, find, ◌==◌, if◌then◌else◌, Result, ok, err, Error, failure, not_found,
  All,
}
use proxmox_manager.Domain.{
  RunType, InstanceState, IpAllocation, NetworkSegment, ValidationResult, pass, is_pass,
  validating_egress,
}
use proxmox_manager.Ipam
use proxmox_manager.Validation.Checks.{Check, Facts, build_evidence, canonical_ssh_fingerprint}
use proxmox_manager.Validation.Rules.{DuplicateMatch, evaluate_identity_and_network}
use proxmox_manager.Validation.Aggregate.{Passed, build_evidence_lem}
use proxmox_manager.Engine.World.{
  Outside, World, TransitionContext, TransitionResult, ask, moved, collect_facts,
}
use proxmox_manager.Engine.Evidence.{find_duplicate_by, get_segment, create_observation, create_run}
use proxmox_manager.Engine.Validating.{
  Settings, identity_input, identity_evidence, judge, judge_identity, ssh_duplicates,
  validating_identity_handler,
}
use proxmox_manager.Engine.Gate.{set_aside, judge-false, passes, not_passes}
use proxmox_manager.Engine.Gate.Matches.{
  AreMatches, AreSshMatches, ssh_matches, matches-AreMatches, ssh_matches-AreSshMatches,
}

module _ (outside : Outside) (settings : Settings) (t : TransitionContext) where
  -- the checks: what is expected is that of the instance, of its address and segment, and of the
  -- configuration
  abbrev pub checks_of :
      Facts → IpAllocation → NetworkSegment → List DuplicateMatch → List DuplicateMatch → List Check
  checks_of facts alloc segment machine ssh = evaluate_identity_and_network settings.text (record {
    facts = facts;
    machine_id_digest = settings.digest facts.machine_id;
    machine_id_duplicates = machine;
    ssh_fingerprint_duplicates = ssh;
    block_retired_duplicate = settings.block_retired_duplicate;
    expected_hostname = t.instance_row.hostname;
    expected_mac_addresses =
        if str_eq t.job.checkpoint_data.nic0_mac ""
        then []
        else t.job.checkpoint_data.nic0_mac ∷ [];
    expected_ipv4 = settings.format_address alloc.address;
    expected_gateway_v4 = segment.gateway;
    require_single_nic = settings.require_single_nic;
    require_single_default_route = settings.require_single_default_route;
    deny_ipv6_default_route = str_eq segment.ipv6_policy "deny";
  })

  -- the evidence: an observation of the instance's generation, and a run of the job
  abbrev pub with_evidence : Facts → InstanceState → ValidationResult → TransitionResult
  with_evidence facts next result = record (moved next t.job.checkpoint_data) {
    persist_evidence = λ db. (
      ok tt,
      record db {
        observations =
            db.observations
            ++ record {
              instance_id = t.instance_row.id;
              generation = t.instance_row.generation;
              machine_id_digest = settings.digest facts.machine_id;
              ssh_host_fingerprint = canonical_ssh_fingerprint facts;
              observed_at = db.now;
            }
              ∷ [];
        runs =
            db.runs
            ++ record {
              instance_id = t.instance_row.id;
              job_id = t.job.id;
              type = RunType.identity;
              result = result;
            }
              ∷ [];
      },
    );
  }

  judge_identity-pass :
      (facts : Facts) (cs : List Check) (w : World)
      → build_evidence cs ≡ pass
      → judge_identity outside settings t facts cs w
        ≡ (ok (with_evidence facts validating_egress pass), w)
  unfolding judge_identity judge identity_evidence create_observation create_run
  judge_identity-pass facts cs w e = rw e refl

  judge_identity-false :
      (facts : Facts) (cs : List Check) (w : World)
      → is_pass (build_evidence cs) ≡ false
      → judge_identity outside settings t facts cs w ≡ (
        ok (with_evidence facts InstanceState.quarantined (build_evidence cs)),
        set_aside t.job.checkpoint_data w,
      )
  unfolding judge_identity identity_evidence create_observation create_run
  judge_identity-false facts cs w p =
      rw p (rw (judge-false outside t.job.checkpoint_data validating_egress w) refl)

  ssh_duplicates-matches :
      (fp : String) (w : World)
      → ssh_duplicates outside t.instance_row.id fp w
        ≡ (ok (ssh_matches fp t.instance_row.id w.db), w)
  unfolding ssh_duplicates find_duplicate_by
  ssh_duplicates-matches fp w = elim (Bool-cases (str_eq fp "")) [
    | inl e ↦ rw e refl
    | inr e ↦ rw e refl
  ]

  module _ (w : World) where
    abbrev pub collected : World
    collected = record w {
      calls = collect_facts t.job.checkpoint_data.node t.job.checkpoint_data.vmid ∷ w.calls;
    }

    -- the facts, the address, its segment and the matches that the checks are made on
    pub record Observed (facts : Facts) (alloc : IpAllocation) (segment : NetworkSegment)
        (machine ssh : List DuplicateMatch) : Type 0 where
      pub read : outside.facts collected.calls ≡ ok facts
      pub address :
          find (Ipam.has_id t.job.checkpoint_data.ip_allocation_id) w.db.allocations ≡ some alloc
      pub network : find (λ s. s.id == alloc.segment_id) w.db.segments ≡ some segment
      pub machine_matches :
          AreMatches
            (λ o. o.machine_id_digest)
            (settings.digest facts.machine_id)
            t.instance_row.id
            w.db
            machine
      pub ssh_matches_of :
          AreSshMatches (canonical_ssh_fingerprint facts) t.instance_row.id w.db ssh

    -- What the handler of WAITING_GUEST does, by what it observes.
    pub data IdentityGate : Result TransitionResult × World → Type 0 where
      unplaced : (t.job.checkpoint_data.vmid == 0) ≡ true → IdentityGate (err failure, w)
      unread : (e : Error) → outside.facts collected.calls ≡ err e → IdentityGate (err e, collected)
      no_address :
          find (Ipam.has_id t.job.checkpoint_data.ip_allocation_id) w.db.allocations ≡ none
          → IdentityGate (err not_found, collected)
      no_segment :
          (alloc : IpAllocation)
          → find (λ s. s.id == alloc.segment_id) w.db.segments ≡ none
          → IdentityGate (err not_found, collected)
      passed :
          (facts : Facts) (alloc : IpAllocation) (segment : NetworkSegment)
          (machine ssh : List DuplicateMatch)
          → Observed facts alloc segment machine ssh
          → All Passed (checks_of facts alloc segment machine ssh)
          → IdentityGate (ok (with_evidence facts validating_egress pass), collected)
      refused :
          (facts : Facts) (alloc : IpAllocation) (segment : NetworkSegment)
          (machine ssh : List DuplicateMatch)
          → Observed facts alloc segment machine ssh
          → build_evidence (checks_of facts alloc segment machine ssh) ≢ pass
          → IdentityGate (
            ok (
                with_evidence facts InstanceState.quarantined
                  (build_evidence (checks_of facts alloc segment machine ssh))),
            set_aside t.job.checkpoint_data collected,
          )

    judged :
        (facts : Facts) (alloc : IpAllocation) (segment : NetworkSegment)
        (machine ssh : List DuplicateMatch)
        → Observed facts alloc segment machine ssh
        → IdentityGate (
            judge_identity outside settings t facts
              (checks_of facts alloc segment machine ssh)
              collected)
    judged facts alloc segment machine ssh o =
        let cs : List Check = checks_of facts alloc segment machine ssh in
        elim (Bool-cases (is_pass (build_evidence cs))) [
          | inl p ↦
              let e : build_evidence cs ≡ pass = passes cs p in
              rw (judge_identity-pass facts cs collected e)
                (passed facts alloc segment machine ssh o ((build_evidence_lem cs).0.0 e))
          | inr p ↦
              rw (judge_identity-false facts cs collected p)
                (refused facts alloc segment machine ssh o (not_passes cs p))
        ]

    pub validating_identity_handler_lem :
        IdentityGate (validating_identity_handler outside settings t w)
    unfolding validating_identity_handler ask Ipam.get get_segment find_duplicate_by identity_input
    validating_identity_handler_lem = elim (Bool-cases (t.job.checkpoint_data.vmid == 0)) [
      | inl z ↦ rw z (unplaced z)
      | inr z ↦ elim (Result-cases (outside.facts collected.calls)) [
        | inr (e, r) ↦ rw z (rw r (unread e r))
        | inl (facts, r) ↦
            elim (Option-cases
              (find (Ipam.has_id t.job.checkpoint_data.ip_allocation_id) w.db.allocations)) [
                | inl a ↦ rw z (rw r (rw a (no_address a)))
                | inr (alloc, a) ↦
                    elim (Option-cases (find (λ s. s.id == alloc.segment_id) w.db.segments)) [
                      | inl s ↦ rw z (rw r (rw a (rw s (no_segment alloc s))))
                      | inr (segment, s) ↦ rw z (
                          rw r (
                            rw a (
                              rw s (
                                rw
                                  (ssh_duplicates-matches (canonical_ssh_fingerprint facts)
                                    collected)
                                  (judged facts alloc segment _ _ (record {
                                    read = r;
                                    address = a;
                                    network = s;
                                    machine_matches =
                                        matches-AreMatches (λ o. o.machine_id_digest)
                                          (settings.digest facts.machine_id) t.instance_row.id w.db;
                                    ssh_matches_of =
                                        ssh_matches-AreSshMatches (canonical_ssh_fingerprint facts)
                                          t.instance_row.id w.db;
                                  }))))))
                    ]
              ]
      ]
    ]
