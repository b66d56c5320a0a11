-- ===== src/Api/Instances.antt =====
-- internal/httpapi/instances.go, jobs.go and templates.go: the mutations. A request's body is
-- decoded by a parameter, `decode` (encoding/json). Left out are the address of an instance's
-- response and the actor and the metadata of an audit event.
pub mod Outcome
pub mod Rebuilding
pub mod Quarantines
use text.Mathlib.Text.{◌==◌ as str_eq}
use mathlib.Core.Option
use Prim.Native.String.{len}
use proxmox_manager.Base.{
  ℕ, String, ◌+◌, Bool, true, false, ◌&&◌, ◌||◌, not, Option, none, some, List, ltb, leb, ◌==◌,
  if◌then◌else◌, find, select_where, first_by, Exec, Result, ok, err, Error, not_found,
  invalid_transition, pure, lift, guard, or_raise, ◌>>=◌, ◌>>◌,
}
use proxmox_manager.Domain.{
  VmInstance, ProvisioningJob, InstanceState, JobState, JobOperation, AuditAction, Template,
  TemplateState, is_usable, draft, candidate, active, deprecated,
}
use proxmox_manager.Store.{Db}
use proxmox_manager.Jobs
use proxmox_manager.Instances
use proxmox_manager.Templates
use proxmox_manager.Ipam.Hostname
use proxmox_manager.Engine.Evidence.{get_segment}
use proxmox_manager.Engine.Step.{append_audit}
use proxmox_manager.Api.{
  Resources, Service, Reply, Json, Work, run_idempotent, require_idempotency_key,
  write_mutation_error,
}

-- the bodies of the answers; `State` of acceptedJobResponse is the text of either
pub data Body : Type 0 where
  accepted : ℕ → ℕ → InstanceState → Body
  accepted_job : ℕ → ℕ → JobState → Body
  instance_row : VmInstance → Option ℕ → Body
  template_row : Template → Body

pub record InstanceCreateRequest : Type 0 where
  pub logical_name : String
  pub template_id : ℕ
  pub network_segment_id : ℕ
  pub egress_policy_id : ℕ
  -- none without a workload, and for an empty adapter
  pub adapter : Option String

pub record Capabilities : Type 0 where
  pub retry : Bool
  pub rebuild : Bool
  pub quarantine : Bool
  pub decommission : Bool

unfoldable pub capabilities_for_state : InstanceState → Capabilities
capabilities_for_state InstanceState.retired = record {
  retry = false;
  rebuild = false;
  quarantine = false;
  decommission = false;
}
capabilities_for_state InstanceState.draining = record {
  retry = false;
  rebuild = false;
  quarantine = false;
  decommission = false;
}
capabilities_for_state InstanceState.decommissioning = record {
  retry = false;
  rebuild = false;
  quarantine = false;
  decommission = false;
}
capabilities_for_state InstanceState.releasing_resources = record {
  retry = false;
  rebuild = false;
  quarantine = false;
  decommission = false;
}
capabilities_for_state InstanceState.ready = record {
  retry = false;
  rebuild = true;
  quarantine = true;
  decommission = true;
}
capabilities_for_state InstanceState.quarantined = record {
  retry = true;
  rebuild = true;
  quarantine = false;
  decommission = true;
}
capabilities_for_state _ = record {
  retry = true;
  rebuild = true;
  quarantine = true;
  decommission = true;
}

-- a statement of the transaction
abbrev pub on_tx : {A : Type 0} → Exec Db A → Exec Resources A
on_tx m s = let (r, db) = m s.db in (r, record s { db = db })

abbrev pub on_sequences : {A : Type 0} → Exec (List Hostname.Sequence) A → Exec Resources A
on_sequences m s = let (r, rows) = m s.sequences in (r, record s { sequences = rows })

-- FindCurrentJobID
unfoldable pub find_current_job_id : ℕ → Exec Db ℕ
find_current_job_id instance_id db =
    or_raise not_found
      (Option.map (λ j. j.id)
        (first_by (λ a b. leb b.created_at a.created_at)
          (select_where (λ j. j.instance_id == instance_id) db.jobs)))
      db

abbrev current_job : Result ℕ → Option ℕ
current_job (ok id) = some id
current_job (err _) = none

unfoldable pub enrich : Db → VmInstance → Body
unfolding find_current_job_id
enrich committed inst = instance_row inst (current_job (find_current_job_id inst.id committed).0)

module _ (format : String → ℕ → String) where
  abbrev pub next_hostname : Exec Resources String
  next_hostname = on_sequences (Hostname.next format "vmf")

  unfoldable pub create_work : InstanceCreateRequest → Work Body
  create_work req committed = do
    tpl ← lift (Templates.get req.template_id committed).0
    guard (is_usable tpl) invalid_transition
    lift (get_segment req.network_segment_id committed).0
    hostname ← next_hostname
    created ← on_tx (
        Instances.create (if str_eq req.logical_name "" then hostname else req.logical_name)
          hostname 0 req.template_id req.adapter)
    job ← on_tx (Jobs.create created.id JobOperation.provision InstanceState.requested)
    pure (record { status = 202; body = accepted created.id job.id InstanceState.requested })

  -- the old instance is retired and its successor has the same name
  unfoldable pub rebuild_work : ℕ → Work Body
  unfolding append_audit
  rebuild_work id committed = do
    old ← lift (Instances.get id committed).0
    on_tx (Instances.retire id)
    hostname ← next_hostname
    created ← on_tx (
        Instances.create old.logical_name hostname (old.generation + 1) old.template_id
          old.workload_adapter)
    job ← on_tx (Jobs.create created.id JobOperation.rebuild InstanceState.requested)
    on_tx (append_audit created.id AuditAction.rebuild)
    pure (record { status = 202; body = accepted created.id job.id InstanceState.requested })

unfoldable pub retry_work : ℕ → Work Body
retry_work id committed = do
  lift (Instances.get id committed).0
  job_id ← lift (find_current_job_id id committed).0
  requeued ← on_tx (Jobs.requeue job_id)
  pure (record { status = 202; body = accepted id requeued.id requeued.checkpoint })

-- the row of the answer is read through the pool again
unfoldable pub quarantine_work : ℕ → Work Body
unfolding append_audit enrich
quarantine_work id committed = do
  lift (Instances.get id committed).0
  on_tx (Instances.update_state id InstanceState.quarantined)
  on_tx (append_audit id AuditAction.quarantine)
  updated ← lift (Instances.get id committed).0
  pure (record { status = 202; body = enrich committed updated })

unfoldable pub decommission_work : ℕ → Work Body
unfolding append_audit
decommission_work id committed = do
  lift (Instances.get id committed).0
  on_tx (Instances.update_state id InstanceState.draining)
  job ← on_tx (Jobs.create id JobOperation.decommission InstanceState.draining)
  on_tx (append_audit id AuditAction.decommission)
  pure (record { status = 202; body = accepted id job.id InstanceState.draining })

-- jobs.go, Retry
unfoldable pub retry_job_work : ℕ → Work Body
retry_job_work id committed = do
  requeued ← on_tx (Jobs.requeue id)
  pure
      (record { status = 202; body = accepted_job requeued.instance_id requeued.id requeued.state })

unfoldable pub forward_promotion : TemplateState → Option TemplateState
forward_promotion draft = some candidate
forward_promotion candidate = some active
forward_promotion active = some deprecated
forward_promotion _ = none

-- templates.go, Promote and Create
unfoldable pub promote_work : ℕ → Work Body
unfolding forward_promotion
promote_work id committed = do
  current ← lift (Templates.get id committed).0
  target ← or_raise invalid_transition (forward_promotion current.state)
  promoted ← on_tx (Templates.promote_tx id target)
  pure (record { status = 202; body = template_row promoted })

unfoldable pub create_template_work : Template → Work Body
create_template_work t committed = do
  created ← on_tx (Templates.create t)
  pure (record { status = 201; body = template_row created })
