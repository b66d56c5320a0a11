-- ===== src/Engine/World.antt =====
-- The state that a transition handler works on: the database, and the calls made so far to Proxmox
-- (through internal/proxmox) and to the proxy gateway (internal/pgw), the last one first. What
-- those systems answer is a parameter, a function of the calls made so far with this one.
use proxmox_manager.Base.{ℕ, String, Bool, Option, none, List, ◌∷◌, Exec, Result, ok}
use proxmox_manager.Domain.{VmInstance, ProvisioningJob, InstanceState, CheckpointData}
use proxmox_manager.Store.{Db}
use proxmox_manager.Validation.Checks.{Facts}
use proxmox_manager.Validation.Rules.{EgressEvidence}

-- a VM is its number on its node
pub data Call : Type 0 where
  next_vmid : Call
  -- the source's number, the node, the target's number
  clone : ℕ → ℕ → ℕ → Call
  configure : ℕ → ℕ → Call
  wait_for_task : ℕ → ℕ → Call
  get_vm get_config start stop delete : ℕ → ℕ → Call
  create_client : String → Call
  create_mapping : ℕ → Call
  activate_mapping suspend_mapping delete_mapping : ℕ → Call
  egress_proof : ℕ → Call
  collect_facts install validate health : ℕ → ℕ → Call

-- the answer to the first call of the list
pub record Outside : Type 0 where
  pub vmid : List Call → Result ℕ
  pub task : List Call → Result ℕ
  -- `status.Success()`
  pub status : List Call → Result Bool
  -- `vm.IsRunning()`
  pub running : List Call → Result Bool
  pub mac : List Call → Result String
  pub reference : List Call → Result ℕ
  pub generation : List Call → Result ℕ
  pub done : List Call → Result (Unit {0})
  pub egress : List Call → Result EgressEvidence
  pub facts : List Call → Result Facts

pub record World : Type 0 where
  pub db : Db
  pub calls : List Call

abbrev pub on_db : {A : Type 0} → Exec Db A → Exec World A
on_db m w = let (r, db') = m w.db in (r, record w { db = db' })

unfoldable pub ask : {A : Type 0} → (List Call → Result A) → Call → Exec World A
ask answer c w = let calls = c ∷ w.calls in (answer calls, record w { calls = calls })

pub record Placement : Type 0 where
  pub cluster_id : ℕ
  pub node : ℕ
  pub vmid : ℕ

-- TransitionResult; PersistEvidence `nil` does nothing
pub record TransitionResult : Type 0 where
  pub next_state : InstanceState
  pub checkpoint_data : CheckpointData
  pub pve_placement : Option Placement
  pub persist_evidence : Exec Db (Unit {0})

-- a result with neither placement nor evidence
abbrev pub moved : InstanceState → CheckpointData → TransitionResult
moved s cp = record {
  next_state = s;
  checkpoint_data = cp;
  pve_placement = none;
  persist_evidence = λ db. (ok tt, db);
}

-- TransitionContext, whose CheckpointData is the job's
pub record TransitionContext : Type 0 where
  pub instance_row : VmInstance
  pub job : ProvisioningJob
  pub save_checkpoint : CheckpointData → Exec World (Unit {0})

abbrev pub Handler : Type 0
Handler = TransitionContext → Exec World TransitionResult

-- the fields of the checkpoint structs that embed one another; the other keys of the JSON object
-- are dropped by each handler that reads it into its struct and writes it back
abbrev pub reserving_checkpoint : CheckpointData → CheckpointData
reserving_checkpoint cp = record cp {
  clone_task_upid = 0;
  config_task_upid = 0;
  nic0_mac = "";
  pgw_client_id = 0;
  pgw_mapping_id = 0;
  desired_generation = 0;
}

abbrev pub cloning_checkpoint : CheckpointData → CheckpointData
cloning_checkpoint cp = record cp {
  config_task_upid = 0;
  nic0_mac = "";
  pgw_client_id = 0;
  pgw_mapping_id = 0;
  desired_generation = 0;
}

abbrev pub configuring_checkpoint : CheckpointData → CheckpointData
configuring_checkpoint cp = record cp {
  pgw_client_id = 0;
  pgw_mapping_id = 0;
  desired_generation = 0;
}
