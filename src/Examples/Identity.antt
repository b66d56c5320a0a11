-- ===== src/Examples/Identity.antt =====
-- The identity and network rules at the sample.
use proxmox_manager.Base.{◌↔◌, [], All}
use proxmox_manager.Domain.{NetworkSegment}
use proxmox_manager.Validation.Rules.{IdentityInput, evaluate_identity_and_network}
use proxmox_manager.Validation.Aggregate.{Passed}
use proxmox_manager.Validation.Identity.{IsAdmissible, evaluate_identity_lem}
use proxmox_manager.Engine.Validating.{identity_input}
use proxmox_manager.Examples.Sample.{free_address}
use proxmox_manager.Examples.Outside.{settings, text, facts, bound}

abbrev segment : NetworkSegment
segment = record { id = 1; gateway = "10.0.0.1"; ipv6_policy = "deny" }

abbrev input : IdentityInput
input = identity_input settings bound facts free_address segment [] []

evaluate_identity_lem_example :
    All Passed (evaluate_identity_and_network text input) ↔ IsAdmissible text input
evaluate_identity_lem_example = evaluate_identity_lem text input
