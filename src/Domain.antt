-- ===== src/Domain.antt =====
-- internal/domain: the records of the database tables. Identifiers and other opaque references
-- (UUIDs, UPIDs, PGW ids, node names) are natural numbers, 0 the empty string; a time is a number
-- of nanoseconds and `now()` a field of the state. Text that a rule looks into is a `String`.
-- Free-form columns that no decision reads (desired_config, build_manifest, evidence, facts, the
-- text of an error message)
-- are left out of the rows.
mod States
pub use States.*
use proxmox_manager.Base.{
  ℕ, String, Bool, true, false, ◌&&◌, not, Option, none, some, ltb, leb, is_some,
}

-- The JSON object of provisioning_jobs.checkpoint_data: the keys that the handlers write. A key
-- that is absent reads as the zero value.
pub record CheckpointData : Type 0 where
  pub ip_allocation_id : ℕ
  pub vmid : ℕ
  pub node : ℕ
  pub clone_task_upid : ℕ
  pub config_task_upid : ℕ
  pub nic0_mac : String
  pub pgw_client_id : ℕ
  pub pgw_mapping_id : ℕ
  pub desired_generation : ℕ

abbrev pub empty_checkpoint : CheckpointData
empty_checkpoint = record {
  ip_allocation_id = 0;
  vmid = 0;
  node = 0;
  clone_task_upid = 0;
  config_task_upid = 0;
  nic0_mac = "";
  pgw_client_id = 0;
  pgw_mapping_id = 0;
  desired_generation = 0;
}

pub record ProvisioningJob : Type 0 where
  pub id : ℕ
  pub instance_id : ℕ
  pub operation : JobOperation
  pub state : JobState
  pub checkpoint : InstanceState
  pub checkpoint_data : CheckpointData
  pub priority : ℕ
  pub attempt : ℕ
  pub max_attempts : ℕ
  pub next_attempt_at : ℕ
  pub lease_owner : Option ℕ
  pub lease_expires_at : Option ℕ
  pub error_code : Option String
  pub created_at : ℕ
  pub started_at : Option ℕ
  pub finished_at : Option ℕ

-- t < e for a nullable column t: NULL compares as not true
abbrev pub before : Option ℕ → ℕ → Bool
before none now = false
before (some t) now = ltb t now

-- t > now for a nullable column t
abbrev pub after : Option ℕ → ℕ → Bool
after none now = false
after (some t) now = ltb now t

unfoldable pub is_leased : ProvisioningJob → ℕ → Bool
is_leased j now = is_some j.lease_owner && after j.lease_expires_at now

unfoldable pub is_claimable : ProvisioningJob → ℕ → Bool
is_claimable j now = is_waiting j.state && not (ltb now j.next_attempt_at)

pub record VmInstance : Type 0 where
  pub id : ℕ
  pub logical_name : String
  pub hostname : String
  pub state : InstanceState
  pub generation : ℕ
  pub template_id : ℕ
  pub pve_cluster_id : Option ℕ
  pub pve_node : Option ℕ
  pub vmid : Option ℕ
  pub workload_adapter : Option String
  pub version : ℕ
  pub retired_at : Option ℕ

unfoldable pub is_retired : VmInstance → Bool
is_retired i = is_some i.retired_at

pub record IpAllocation : Type 0 where
  pub id : ℕ
  pub segment_id : ℕ
  pub address : ℕ
  pub instance_id : Option ℕ
  pub state : AllocationState
  pub reserved_until : Option ℕ
  pub assigned_at : Option ℕ
  pub released_at : Option ℕ

unfoldable pub is_expired_reservation : IpAllocation → ℕ → Bool
is_expired_reservation a now = is_reserved a.state && before a.reserved_until now

pub record NetworkSegment : Type 0 where
  pub id : ℕ
  pub gateway : String
  pub ipv6_policy : String

pub record Template : Type 0 where
  pub id : ℕ
  pub family : String
  pub version : String
  pub pve_cluster_id : ℕ
  pub pve_node : ℕ
  pub pve_template_vmid : ℕ
  pub storage : String
  pub state : TemplateState
  pub validation_status : ValidationResult

unfoldable pub is_usable : Template → Bool
is_usable t = is_active t.state

pub data RunType : Type 0 where
  identity egress workload : RunType

pub record ValidationRun : Type 0 where
  pub instance_id : ℕ
  pub job_id : ℕ
  pub type : RunType
  pub result : ValidationResult

pub record IdentityObservation : Type 0 where
  pub instance_id : ℕ
  pub generation : ℕ
  pub machine_id_digest : String
  pub ssh_host_fingerprint : String
  pub observed_at : ℕ

pub data AuditAction : Type 0 where
  state_transition : InstanceState → InstanceState → AuditAction
  rollback : AuditAction
  quarantine : AuditAction
  rebuild : AuditAction
  decommission : AuditAction
  release_expired_reservation : ℕ → AuditAction

pub record AuditEvent : Type 0 where
  pub resource_id : ℕ
  pub action : AuditAction

-- `unresolved` is OPEN
pub data FindingState : Type 0 where
  unresolved acknowledged remediating resolved : FindingState

abbrev pub is_open : FindingState → Bool
is_open unresolved = true
is_open _ = false

-- the summary, the details and the times are left out; `none` is NULL
pub record Finding : Type 0 where
  pub id : ℕ
  pub category : String
  pub severity : String
  pub resource_type : Option String
  pub resource_id : Option ℕ
  pub state : FindingState

pub data AlertStatus : Type 0 where
  firing acknowledged resolved : AlertStatus

-- the title and the description are left out
pub record Alert : Type 0 where
  pub id : ℕ
  pub fingerprint : String
  pub status : AlertStatus
  pub severity : String
  pub resource_type : String
  pub resource_id : String
  pub created_at : ℕ
  pub updated_at : ℕ
  pub acknowledged_at : Option ℕ
  pub acknowledged_by : Option ℕ
  pub acknowledged_note : Option String
  pub version : ℕ
