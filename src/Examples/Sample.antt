-- ===== src/Examples/Sample.antt =====
-- The database of the examples: two jobs, one of which runs, two addresses and two templates.
use proxmox_manager.Base.{none, some, [], ◌∷◌}
use proxmox_manager.Domain.{
  ProvisioningJob, VmInstance, IpAllocation, Template, JobState, JobOperation, InstanceState,
  AllocationState, TemplateState, empty_checkpoint, pass,
}
use proxmox_manager.Store.{Db}

abbrev pub waiting_job : ProvisioningJob
waiting_job = record {
  id = 2;
  instance_id = 6;
  operation = JobOperation.provision;
  state = JobState.queued;
  checkpoint = InstanceState.requested;
  checkpoint_data = empty_checkpoint;
  priority = 0;
  attempt = 0;
  max_attempts = 8;
  next_attempt_at = 90;
  lease_owner = none;
  lease_expires_at = none;
  error_code = none;
  created_at = 90;
  started_at = none;
  finished_at = none;
}

abbrev pub running_job : ProvisioningJob
running_job = record waiting_job {
  id = 1;
  state = JobState.running;
  attempt = 1;
  lease_owner = some 7;
  lease_expires_at = some 200;
}

abbrev pub ready_instance : VmInstance
ready_instance = record {
  id = 5;
  logical_name = "web";
  hostname = "web-1";
  state = InstanceState.ready;
  generation = 1;
  template_id = 1;
  pve_cluster_id = none;
  pve_node = none;
  vmid = none;
  workload_adapter = none;
  version = 9;
  retired_at = none;
}

abbrev pub starting_instance : VmInstance
starting_instance = record ready_instance { id = 6; state = InstanceState.cloning; version = 3 }

abbrev pub free_address : IpAllocation
free_address = record {
  id = 1;
  segment_id = 1;
  address = 10;
  instance_id = none;
  state = AllocationState.free;
  reserved_until = none;
  assigned_at = none;
  released_at = none;
}

abbrev pub expired_address : IpAllocation
expired_address = record free_address {
  id = 2;
  address = 11;
  instance_id = some 5;
  state = AllocationState.reserved;
  reserved_until = some 50;
}

abbrev pub old_template : Template
old_template = record {
  id = 1;
  family = "ubuntu";
  version = "1";
  pve_cluster_id = 1;
  pve_node = 3;
  pve_template_vmid = 900;
  storage = "zfs";
  state = TemplateState.active;
  validation_status = pass;
}

abbrev pub new_template : Template
new_template = record old_template { id = 2; version = "2"; state = TemplateState.candidate }

abbrev pub sample : Db
sample = record {
  now = 100;
  next_id = 50;
  jobs = running_job ∷ waiting_job ∷ [];
  instances = ready_instance ∷ starting_instance ∷ [];
  allocations = free_address ∷ expired_address ∷ [];
  segments = [];
  templates = old_template ∷ new_template ∷ [];
  observations = [];
  runs = [];
  audit = [];
  findings = [];
  alerts = [];
}
