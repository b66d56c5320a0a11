-- ===== src/Domain/States.antt =====
-- internal/domain/states.go: the enumerations. `==` on the string constants is a Boolean function
-- by clauses for each.
use proxmox_manager.Base.{Bool, true, false}

pub data TemplateState : Type 0 where
  draft candidate active deprecated revoked : TemplateState

pub data InstanceState : Type 0 where
  requested reserving cloning configuring network_binding booting waiting_guest : InstanceState
  validating_identity validating_egress applying_workload ready retry_wait : InstanceState
  degraded quarantined rolling_back failed draining decommissioning : InstanceState
  releasing_resources retired : InstanceState

pub data JobOperation : Type 0 where
  provision retry rebuild quarantine decommission reconcile : JobOperation

pub data JobState : Type 0 where
  queued running retry_wait succeeded failed cancelled : JobState

pub data AllocationState : Type 0 where
  free reserved assigned quarantined released : AllocationState

pub data ValidationResult : Type 0 where
  pass warn fail unknown : ValidationResult

abbrev pub is_queued : JobState → Bool
is_queued queued = true
is_queued _ = false

abbrev pub is_running : JobState → Bool
is_running running = true
is_running _ = false

-- state IN ('QUEUED', 'RETRY_WAIT')
abbrev pub is_waiting : JobState → Bool
is_waiting queued = true
is_waiting JobState.retry_wait = true
is_waiting _ = false

-- state IN ('FAILED', 'RETRY_WAIT')
abbrev pub is_requeuable : JobState → Bool
is_requeuable JobState.failed = true
is_requeuable JobState.retry_wait = true
is_requeuable _ = false

-- state IN ('QUEUED', 'RUNNING', 'RETRY_WAIT')
abbrev pub is_live : JobState → Bool
is_live queued = true
is_live running = true
is_live JobState.retry_wait = true
is_live _ = false

abbrev pub is_free : AllocationState → Bool
is_free free = true
is_free _ = false

abbrev pub is_reserved : AllocationState → Bool
is_reserved reserved = true
is_reserved _ = false

abbrev pub is_assigned : AllocationState → Bool
is_assigned assigned = true
is_assigned _ = false

-- state IN ('RESERVED', 'ASSIGNED')
abbrev pub is_held : AllocationState → Bool
is_held reserved = true
is_held assigned = true
is_held _ = false

-- state IN ('RESERVED', 'ASSIGNED', 'QUARANTINED')
abbrev pub is_releasable : AllocationState → Bool
is_releasable reserved = true
is_releasable assigned = true
is_releasable AllocationState.quarantined = true
is_releasable _ = false

abbrev pub is_active : TemplateState → Bool
is_active active = true
is_active _ = false

abbrev pub is_ready : InstanceState → Bool
is_ready ready = true
is_ready _ = false

abbrev pub is_pass : ValidationResult → Bool
is_pass pass = true
is_pass _ = false
