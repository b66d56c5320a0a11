-- ===== src/Engine/Quarantine.antt =====
-- internal/stateengine/quarantine.go. The warnings go only into the audit event's metadata.
pub mod Kept
use proxmox_manager.Base.{Bool, ◌&&◌, not, Exec, pure, attempt, ◌==◌, if◌then◌else◌, ◌>>=◌, ◌>>◌}
use proxmox_manager.Domain.{VmInstance, ProvisioningJob, InstanceState, CheckpointData, AuditAction}
use proxmox_manager.Store.{Db, with_tx}
use proxmox_manager.Jobs
use proxmox_manager.Instances
use proxmox_manager.Ipam
use proxmox_manager.Engine.World.{Outside, World, ask, on_db, stop, suspend_mapping}
use proxmox_manager.Engine.Step.{append_audit}
use proxmox_manager.Engine.Rollback.{wait_stopped}

unfoldable pub record_quarantine : VmInstance → ProvisioningJob → Exec Db (Unit {0})
unfolding append_audit
record_quarantine inst job = with_tx do
  Instances.update_state inst.id InstanceState.quarantined
  Jobs.update_checkpoint job.id InstanceState.quarantined job.checkpoint_data
  append_audit inst.id AuditAction.quarantine

module _ (outside : Outside) where
  unfoldable pub suspend : CheckpointData → Exec World (Unit {0})
  suspend cp =
      if not (cp.pgw_mapping_id == 0)
      then attempt (ask outside.done (suspend_mapping cp.pgw_mapping_id)) >> pure tt
      else pure tt

  unfoldable pub stop_vm : Bool → CheckpointData → Exec World (Unit {0})
  stop_vm wanted cp =
      if wanted && not (cp.vmid == 0)
      then (do
        stopped ← attempt (ask outside.task (stop cp.node cp.vmid))
        wait_stopped outside cp.node stopped)
      else pure tt

  unfoldable pub keep_address : CheckpointData → Exec World (Unit {0})
  keep_address cp =
      if not (cp.ip_allocation_id == 0)
      then attempt (on_db (Ipam.mark_quarantined cp.ip_allocation_id)) >> pure tt
      else pure tt

  unfoldable pub execute : VmInstance → ProvisioningJob → Bool → Exec World (Unit {0})
  unfolding suspend stop_vm keep_address record_quarantine
  execute inst job wanted = do
    suspend job.checkpoint_data
    stop_vm wanted job.checkpoint_data
    keep_address job.checkpoint_data
    on_db (record_quarantine inst job)
