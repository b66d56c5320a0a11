-- ===== src/Engine/Rollback.antt =====
-- internal/stateengine/rollback.go. The list of failures is the flag whether there is one; the
-- calls go on after a failure.
pub mod Outcome
pub mod Queue
use proxmox_manager.Base.{
  ℕ, Bool, true, false, ◌&&◌, ◌||◌, not, Exec, Result, ok, err, pure, attempt, ◌==◌, if◌then◌else◌,
  ◌>>=◌, ◌>>◌,
}
use proxmox_manager.Domain.{
  VmInstance, ProvisioningJob, InstanceState, CheckpointData, failed, rollback,
}
use proxmox_manager.Store.{Db, with_tx}
use proxmox_manager.Jobs
use proxmox_manager.Instances
use proxmox_manager.Ipam
use proxmox_manager.Engine.World.{
  Outside, World, ask, on_db, stop, delete, wait_for_task, suspend_mapping, delete_mapping,
}
use proxmox_manager.Engine.Step.{append_audit}

abbrev pub is_ok : {A : Type 0} → Result A → Bool
is_ok (ok _) = true
is_ok (err _) = false

-- `err != nil || !status.Success()`
abbrev pub task_failed : Result Bool → Bool
task_failed (ok success) = not success
task_failed (err _) = true

module _ (outside : Outside) where
  abbrev pub wait_stopped : ℕ → Result ℕ → Exec World (Unit {0})
  wait_stopped node (ok upid) = attempt (ask outside.status (wait_for_task node upid)) >> pure tt
  wait_stopped node (err _) = pure tt

  abbrev pub wait_deleted : ℕ → Result ℕ → Exec World Bool
  wait_deleted node (ok upid) = do
    status ← attempt (ask outside.status (wait_for_task node upid))
    pure (task_failed status)
  wait_deleted node (err _) = pure true

  -- a stop that fails is passed over
  unfoldable pub stop_vm : CheckpointData → Exec World (Unit {0})
  stop_vm cp = do
    stopped ← attempt (ask outside.task (stop cp.node cp.vmid))
    wait_stopped cp.node stopped

  unfoldable pub delete_vm : CheckpointData → Exec World Bool
  delete_vm cp = do
    deleted ← attempt (ask outside.task (delete cp.node cp.vmid))
    wait_deleted cp.node deleted

  -- stop and delete the VM; whether that failed
  unfoldable pub remove_vm : CheckpointData → Exec World Bool
  unfolding stop_vm delete_vm
  remove_vm cp = if not (cp.vmid == 0) then stop_vm cp >> delete_vm cp else pure false

  unfoldable pub remove_mapping : CheckpointData → Exec World Bool
  remove_mapping cp =
      if not (cp.pgw_mapping_id == 0)
      then (do
        suspended ← attempt (ask outside.done (suspend_mapping cp.pgw_mapping_id))
        deleted ← attempt (ask outside.done (delete_mapping cp.pgw_mapping_id))
        pure (not (is_ok suspended) || not (is_ok deleted)))
      else pure false

  -- the address is given up only if nothing failed before; whether there is a failure now
  unfoldable pub release_address : CheckpointData → Bool → Exec World Bool
  release_address cp failures =
      if not (cp.ip_allocation_id == 0) && not failures
      then (do
        released ← attempt (on_db (Ipam.release cp.ip_allocation_id))
        pure (not (is_ok released)))
      else pure failures

  -- with a failure the address has not been released
  unfoldable pub final_state : CheckpointData → Bool → Exec World InstanceState
  final_state cp failures =
      if failures
      then (if not (cp.ip_allocation_id == 0)
          then attempt (on_db (Ipam.mark_quarantined cp.ip_allocation_id))
            >> pure InstanceState.quarantined
          else pure InstanceState.quarantined)
      else pure failed

  -- the compensating actions, in their order
  unfoldable pub compensate : CheckpointData → Exec World InstanceState
  unfolding remove_vm remove_mapping release_address final_state
  compensate cp = do
    vm_left ← remove_vm cp
    mapping_left ← remove_mapping cp
    failures ← release_address cp (vm_left || mapping_left)
    final_state cp failures

  abbrev pub record_rollback : VmInstance → ProvisioningJob → InstanceState → Exec Db (Unit {0})
  record_rollback inst job s = with_tx do
    Instances.update_state inst.id s
    Jobs.update_checkpoint job.id s job.checkpoint_data
    append_audit inst.id rollback

  unfoldable pub execute : VmInstance → ProvisioningJob → Exec World InstanceState
  unfolding compensate
  execute inst job = do
    s ← compensate job.checkpoint_data
    on_db (record_rollback inst job s)
    pure s
