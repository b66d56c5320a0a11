-- ===== src/Engine/Gate.antt =====
-- The gates on the way to READY: what a validating handler lets pass, and what it does otherwise.
pub mod Matches
pub mod Identity
pub mod Simulated
use proxmox_manager.Base.{
  ◌≡◌, ◌≢◌, refl, inl, inr, true, false, not, ◌&&◌, List, ◌∷◌, Bool-cases, Result-cases, ◌==◌,
  if◌then◌else◌, Result, ok, err, failure, All, Error,
}
use proxmox_manager.Domain.{
  CheckpointData, InstanceState, RunType, ValidationResult, pass, is_pass, applying_workload,
}
use proxmox_manager.Ipam
use proxmox_manager.Validation.Checks.{Check, build_evidence}
use proxmox_manager.Validation.Rules.{EgressEvidence}
use proxmox_manager.Validation.Aggregate.{Passed, build_evidence_lem}
use proxmox_manager.Engine.World.{
  Outside, World, TransitionContext, TransitionResult, ask, moved, egress_proof, suspend_mapping,
}
use proxmox_manager.Engine.Evidence.{create_run}
use proxmox_manager.Engine.Quarantine.{suspend, keep_address}
use proxmox_manager.Engine.Validating.{
  Settings, judge, judge_egress, egress_checks, validating_egress_handler,
}

-- the mapping suspended and the address marked as quarantined, where the checkpoint names them
abbrev pub set_aside : CheckpointData → World → World
set_aside cp w = record {
  db =
      if cp.ip_allocation_id == 0 then w.db else (Ipam.mark_quarantined cp.ip_allocation_id w.db).1;
  calls = if cp.pgw_mapping_id == 0 then w.calls else suspend_mapping cp.pgw_mapping_id ∷ w.calls;
}

pub passes : (cs : List Check) → is_pass (build_evidence cs) ≡ true → build_evidence cs ≡ pass
passes cs p = is_pass-pass (build_evidence cs) p
  where
    is_pass-pass : (r : ValidationResult) → is_pass r ≡ true → r ≡ pass
    is_pass-pass pass e = refl
    is_pass-pass ValidationResult.warn e = cc
    is_pass-pass ValidationResult.fail e = cc
    is_pass-pass ValidationResult.unknown e = cc

pub not_passes : (cs : List Check) → is_pass (build_evidence cs) ≡ false → build_evidence cs ≢ pass
not_passes cs p e = cc (rw e at p)

module _ (outside : Outside) where
  pub judge-false :
      (cp : CheckpointData) (next : InstanceState) (w : World)
      → judge outside cp false next w ≡ (ok InstanceState.quarantined, set_aside cp w)
  unfolding judge suspend keep_address ask
  judge-false cp next w = elim (Bool-cases (cp.pgw_mapping_id == 0)) [
    | inl m ↦ elim (Bool-cases (cp.ip_allocation_id == 0)) [
      | inl a ↦ rw m (rw a refl)
      | inr a ↦ rw m (rw a refl)
    ]
    | inr m ↦ elim (Bool-cases (cp.ip_allocation_id == 0)) [
      | inl a ↦ rw m (rw a refl)
      | inr a ↦ rw m (rw a refl)
    ]
  ]

  module _ (t : TransitionContext) where
    abbrev pub with_run : InstanceState → ValidationResult → TransitionResult
    with_run next result = record (moved next t.job.checkpoint_data) {
      persist_evidence = create_run t.instance_row.id t.job.id RunType.egress result;
    }

    judge_egress-pass :
        (cs : List Check) (w : World)
        → build_evidence cs ≡ pass
        → judge_egress outside t cs w ≡ (ok (with_run applying_workload pass), w)
    unfolding judge_egress judge
    judge_egress-pass cs w e = rw e refl

    judge_egress-false :
        (cs : List Check) (w : World)
        → is_pass (build_evidence cs) ≡ false
        → judge_egress outside t cs w ≡ (
          ok (with_run InstanceState.quarantined (build_evidence cs)),
          set_aside t.job.checkpoint_data w,
        )
    unfolding judge_egress
    judge_egress-false cs w p =
        rw p (rw (judge-false t.job.checkpoint_data applying_workload w) refl)

  module _ (settings : Settings) (t : TransitionContext) (w : World) where
    abbrev pub asked : World
    asked = record w { calls = egress_proof t.job.checkpoint_data.pgw_client_id ∷ w.calls }

    -- What the handler of VALIDATING_EGRESS does, by the proof that it reads.
    pub data EgressGate : Result TransitionResult × World → Type 0 where
      unbound :
          (not (t.job.checkpoint_data.pgw_client_id == 0)
              && not (t.job.checkpoint_data.pgw_mapping_id == 0))
            ≡ false
          → EgressGate (err failure, w)
      unread : (e : Error) → outside.egress asked.calls ≡ err e → EgressGate (err e, asked)
      passed :
          (evidence : EgressEvidence)
          → outside.egress asked.calls ≡ ok evidence
          → All Passed (egress_checks settings t evidence)
          → EgressGate (ok (with_run t applying_workload pass), asked)
      refused :
          (evidence : EgressEvidence)
          → outside.egress asked.calls ≡ ok evidence
          → build_evidence (egress_checks settings t evidence) ≢ pass
          → EgressGate (
            ok (
                with_run t InstanceState.quarantined
                  (build_evidence (egress_checks settings t evidence))),
            set_aside t.job.checkpoint_data asked,
          )

    -- The handler of VALIDATING_EGRESS fails without a change where the checkpoint has no client
    -- or no mapping, and fails where the proof cannot be read. It moves to APPLYING_WORKLOAD only
    -- where every check on the proof passed, with a run whose result is PASS as evidence.
    -- Otherwise it moves to QUARANTINED, with the run's result as evidence, after it has asked for
    -- the suspension of the mapping and marked the address as quarantined, if there is one.
    pub validating_egress_handler_lem : EgressGate (validating_egress_handler outside settings t w)
    unfolding validating_egress_handler ask judge_egress
    validating_egress_handler_lem =
        elim (Bool-cases (
          not (t.job.checkpoint_data.pgw_client_id == 0)
          && not (t.job.checkpoint_data.pgw_mapping_id == 0))) [
            | inr b ↦ rw b (unbound b)
            | inl b ↦ elim (Result-cases (outside.egress asked.calls)) [
              | inr (e, r) ↦ rw b (rw r (unread e r))
              | inl (evidence, r) ↦
                  let cs : List Check = egress_checks settings t evidence in
                  elim (Bool-cases (is_pass (build_evidence cs))) [
                    | inl p ↦
                        let e : build_evidence cs ≡ pass = passes cs p in
                        rw b (
                          rw r (
                            rw (judge_egress-pass t cs asked e)
                              (passed evidence r ((build_evidence_lem cs).0.0 e))))
                    | inr p ↦ rw b (
                        rw r (
                          rw (judge_egress-false t cs asked p)
                            (refused evidence r (not_passes cs p))))
                  ]
            ]
          ]
