-- ===== src/Examples/Outside.antt =====
-- Proxmox, the guest and the gateway of the examples: every call succeeds.
use proxmox_manager.Base.{true, false, some, [], ◌∷◌, ok}
use proxmox_manager.Domain.{CheckpointData, InstanceState, ProvisioningJob, empty_checkpoint}
use proxmox_manager.Validation.Checks.{Facts}
use proxmox_manager.Validation.Rules.{Text, EgressEvidence}
use proxmox_manager.Engine.World.{Outside, World, TransitionContext}
use proxmox_manager.Engine.Step.{context}
use proxmox_manager.Engine.Validating.{Settings}
use proxmox_manager.Engine.Workload.{WorkloadAdapter}
use proxmox_manager.Examples.Sample.{sample, running_job, starting_instance}

abbrev pub proof : EgressEvidence
proof = record {
  client_id = 5;
  mapping_id = 6;
  result = "PASS";
  checked_at = "now";
  ipv4 = "203.0.113.7";
  ipv6 = "BLOCKED";
  policy = "deny-ipv6";
  direct_leak_packets = 0;
  proxy_health = "ACTIVE";
  rules_generation = 1;
}

abbrev pub facts : Facts
facts = record {
  machine_id = "";
  boot_id = "";
  hostname = "web-1";
  cloud_init_instance_id = "";
  ssh_host_key_fingerprints = [];
  mac_addresses = [];
  ipv4_addresses = [];
  global_ipv6_addresses = [];
  nic_count = 1;
  default_route_v4_count = 1;
  default_route_v6_count = 0;
  default_gateway_v4 = "10.0.0.1";
  collected_at = 90;
}

abbrev pub outside : Outside
outside = record {
  vmid = λ _. ok 101;
  task = λ _. ok 77;
  status = λ _. ok true;
  running = λ _. ok false;
  mac = λ _. ok "bc:24:11:00:00:01";
  reference = λ _. ok 5;
  generation = λ _. ok 1;
  done = λ _. ok tt;
  egress = λ _. ok proof;
  facts = λ _. ok facts;
}

abbrev pub text : Text
text = record {
  itoa = λ _. "n";
  join = λ _. "";
  to_lower = λ s. s;
  parse_time = λ _. some 95;
  show_duration = λ _. "d";
  time_now = 100;
}

abbrev pub settings : Settings
settings = record {
  text = text;
  digest = λ s. s;
  format_address = λ _. "10.0.0.10";
  block_retired_duplicate = true;
  require_single_nic = true;
  require_single_default_route = true;
  deny_ipv6 = true;
  proof_max_age = 10;
}

abbrev pub bound_checkpoint : CheckpointData
bound_checkpoint = record empty_checkpoint {
  ip_allocation_id = 2;
  vmid = 101;
  node = 3;
  pgw_client_id = 5;
  pgw_mapping_id = 6;
  desired_generation = 1;
}

-- a job whose VM is to be cloned
abbrev pub cloning_job : ProvisioningJob
cloning_job = record running_job {
  checkpoint = InstanceState.cloning;
  checkpoint_data = record empty_checkpoint { ip_allocation_id = 2; vmid = 101; node = 3 };
}

abbrev pub world : World
world = record { db = record sample { jobs = cloning_job ∷ [] }; calls = [] }

abbrev pub bound : TransitionContext
bound = context starting_instance (record cloning_job { checkpoint_data = bound_checkpoint })

abbrev pub adapter : WorkloadAdapter
adapter = record { install = λ _. ok tt; valid = λ _. ok true; healthy = λ _. ok true }
