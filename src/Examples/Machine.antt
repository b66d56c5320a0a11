-- ===== src/Examples/Machine.antt =====
-- The state engine at the sample.
use proxmox_manager.Base.{◌≡◌, refl, ok, ◌↔◌, Option, none, some, find, count_where, true, All}
use proxmox_manager.Domain.{InstanceState}
use proxmox_manager.Jobs
use proxmox_manager.Validation.Rules.{EgressInput, evaluate_egress}
use proxmox_manager.Validation.Aggregate.{Passed}
use proxmox_manager.Validation.Egress.{IsProof, evaluate_egress_lem}
use proxmox_manager.Engine.World.{Handler, Outside}
use proxmox_manager.Engine.Provision.{cloning_handler}
use proxmox_manager.Engine.Provision.Retry.{clones, clone_once_lem}
use proxmox_manager.Engine.Step.{context}
use proxmox_manager.Engine.Rollback.{compensate}
use proxmox_manager.Engine.Rollback.Outcome.{Compensated, compensate_lem}
use proxmox_manager.Engine.Validating.{validating_egress_handler}
use proxmox_manager.Engine.Gate.{EgressGate, validating_egress_handler_lem}
use proxmox_manager.Engine.Gate.Simulated.{
  noop_proof, FailsOrQuarantines, validating_egress_handler-quarantines,
}
use proxmox_manager.Examples.Sample.{starting_instance, old_template}
use proxmox_manager.Examples.Outside.{
  outside, settings, text, proof, world, bound, bound_checkpoint, cloning_job,
}

compensate_lem_example :
    Compensated outside bound_checkpoint world (compensate outside bound_checkpoint world)
compensate_lem_example = compensate_lem outside bound_checkpoint world

abbrev registry : InstanceState → Option Handler
registry InstanceState.cloning = some (cloning_handler outside)
registry _ = none

clone_once_lem_example :
    let row' =
      Jobs.checkpointed InstanceState.cloning
        (record cloning_job.checkpoint_data { clone_task_upid = 77 })
        cloning_job in
    (find
        (Jobs.has_id 1)
        (cloning_handler outside (context starting_instance cloning_job) world).1.db.jobs
      ≡ some row')
    × (clones (cloning_handler outside (context starting_instance row') world).1.calls ≡ 0)
unfolding find count_where
clone_once_lem_example =
    clone_once_lem outside starting_instance cloning_job cloning_job old_template 77 world refl refl
      refl refl refl refl world

validating_egress_handler_lem_example :
    EgressGate outside settings bound world (validating_egress_handler outside settings bound world)
validating_egress_handler_lem_example = validating_egress_handler_lem outside settings bound world

abbrev egress_input : EgressInput
egress_input = record {
  evidence = proof;
  expected_mapping_id = 6;
  desired_generation = 1;
  deny_ipv6 = true;
  proof_max_age = 10;
  now = 0;
}

evaluate_egress_lem_example :
    All Passed (evaluate_egress text egress_input) ↔ IsProof text egress_input
evaluate_egress_lem_example = evaluate_egress_lem text egress_input

abbrev without_gateway : Outside
without_gateway = record outside { egress = λ _. ok (noop_proof 5) }

validating_egress_handler-quarantines_example :
    FailsOrQuarantines (validating_egress_handler without_gateway settings bound world).0
validating_egress_handler-quarantines_example =
    validating_egress_handler-quarantines without_gateway settings bound world (λ _. (5, refl))
