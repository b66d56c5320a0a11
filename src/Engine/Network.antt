-- ===== src/Engine/Network.antt =====
-- internal/stateengine/handlers_network_boot.go: from NETWORK_BINDING to WAITING_GUEST.
use proxmox_manager.Base.{Bool, not, ◌==◌, if◌then◌else◌, Exec, pure, guard, failure, ◌>>=◌, ◌>>◌}
use proxmox_manager.Domain.{CheckpointData, booting, waiting_guest}
use proxmox_manager.Engine.World.{
  Outside, World, TransitionContext, Handler, ask, moved, create_client, create_mapping,
  activate_mapping, get_vm, start,
}
use proxmox_manager.Engine.Provision.{await_task}

module _ (outside : Outside) where
  unfoldable pub client_once : TransitionContext → CheckpointData → Exec World CheckpointData
  client_once t cp =
      if cp.pgw_client_id == 0
      then (do
        id ← ask outside.reference (create_client t.instance_row.hostname)
        t.save_checkpoint (record cp { pgw_client_id = id })
        pure (record cp { pgw_client_id = id }))
      else pure cp

  unfoldable pub mapping_once : TransitionContext → CheckpointData → Exec World CheckpointData
  mapping_once t cp =
      if cp.pgw_mapping_id == 0
      then (do
        id ← ask outside.reference (create_mapping cp.pgw_client_id)
        t.save_checkpoint (record cp { pgw_mapping_id = id })
        pure (record cp { pgw_mapping_id = id }))
      else pure cp

  unfoldable pub network_binding_handler : Handler
  unfolding client_once mapping_once
  network_binding_handler t = do
    guard (not (t.job.checkpoint_data.vmid == 0)) failure
    bound ← client_once t t.job.checkpoint_data
    cp ← mapping_once t bound
    gen ← ask outside.generation (activate_mapping cp.pgw_mapping_id)
    pure (moved booting (record cp { desired_generation = gen }))

  -- Start, unless the VM is running
  unfoldable pub start_once : Bool → CheckpointData → Exec World (Unit {0})
  unfolding await_task
  start_once running cp =
      if running
      then pure tt
      else (do upid ← ask outside.task (start cp.node cp.vmid); await_task outside cp.node upid)

  unfoldable pub booting_handler : Handler
  unfolding start_once
  booting_handler t = do
    guard (not (t.job.checkpoint_data.vmid == 0)) failure
    running ← ask outside.running (get_vm t.job.checkpoint_data.node t.job.checkpoint_data.vmid)
    start_once running t.job.checkpoint_data
    pure (moved waiting_guest t.job.checkpoint_data)
