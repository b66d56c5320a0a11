-- ===== src/Engine/Step.antt =====
-- internal/stateengine/engine.go: one step of a job.
pub mod Transition
use proxmox_manager.Base.{
  ℕ, ◌++◌, Option, none, some, [], ◌∷◌, Exec, pure, modify, or_raise, invalid_transition, ◌>>=◌,
  ◌>>◌,
}
use proxmox_manager.Domain.{
  VmInstance, ProvisioningJob, InstanceState, AuditAction, state_transition,
}
use proxmox_manager.Store.{Db, with_tx}
use proxmox_manager.Jobs
use proxmox_manager.Instances
use proxmox_manager.Engine.World.{
  World, TransitionContext, TransitionResult, Placement, Handler, on_db,
}

-- audit.Writer.Append
unfoldable pub append_audit : ℕ → AuditAction → Exec Db (Unit {0})
append_audit resource_id action = modify (λ db. record db {
  audit = db.audit ++ (record { resource_id = resource_id; action = action }) ∷ [];
})

abbrev pub place : ℕ → Option Placement → Exec Db (Unit {0})
place id none = pure tt
place id (some p) = Instances.set_pve_placement id p.cluster_id p.node p.vmid

-- the transaction of a step
unfoldable pub persist : VmInstance → ProvisioningJob → TransitionResult → Exec Db (Unit {0})
unfolding append_audit
persist inst job result = with_tx do
  Instances.update_state inst.id result.next_state
  place inst.id result.pve_placement
  Jobs.update_checkpoint job.id result.next_state result.checkpoint_data
  result.persist_evidence
  append_audit inst.id (state_transition inst.state result.next_state)

abbrev pub context : VmInstance → ProvisioningJob → TransitionContext
context inst job = record {
  instance_row = inst;
  job = job;
  save_checkpoint = λ cp. on_db (Jobs.update_checkpoint job.id inst.state cp);
}

unfoldable pub step : (InstanceState → Option Handler) → ProvisioningJob → Exec World InstanceState
unfolding persist
step registry job = do
  inst ← on_db (Instances.get job.instance_id)
  handler ← or_raise invalid_transition (registry inst.state)
  result ← handler (context inst job)
  on_db (persist inst job result)
  pure result.next_state
