-- ===== src/Engine/Provision.antt =====
-- internal/stateengine/handlers_reserve.go and handlers_provision.go: from REQUESTED to
-- NETWORK_BINDING.
pub mod Retry
use text.Mathlib.Text.{◌==◌ as str_eq}
use proxmox_manager.Base.{
  ℕ, ◌&&◌, not, some, ◌==◌, if◌then◌else◌, Exec, pure, guard, failure, invalid_transition, ◌>>=◌,
  ◌>>◌,
}
use proxmox_manager.Domain.{
  Template, CheckpointData, empty_checkpoint, reserving, cloning, configuring, network_binding,
  is_usable,
}
use proxmox_manager.Ipam
use proxmox_manager.Templates
use proxmox_manager.Engine.World.{
  Outside, World, TransitionContext, TransitionResult, Handler, ask, on_db, moved,
  reserving_checkpoint, cloning_checkpoint, configuring_checkpoint, next_vmid, clone, configure,
  wait_for_task, get_vm, get_config,
}

unfoldable pub requested_handler : Handler
requested_handler t = do
  tpl ← on_db (Templates.get t.instance_row.template_id)
  guard (is_usable tpl) invalid_transition
  pure (moved reserving t.job.checkpoint_data)

module _ (outside : Outside) where
  abbrev reserve : ℕ → ℕ → Handler
  reserve segment_id reservation_ttl t = do
    tpl ← on_db (Templates.get t.instance_row.template_id)
    alloc ← on_db (Ipam.reserve_next_free segment_id t.instance_row.id reservation_ttl)
    vmid ← ask outside.vmid next_vmid
    pure (
        moved cloning (record empty_checkpoint {
          ip_allocation_id = alloc.id;
          vmid = vmid;
          node = tpl.pve_node;
        }))

  unfoldable pub reserving_handler : ℕ → ℕ → Handler
  reserving_handler segment_id reservation_ttl t =
      let existing = reserving_checkpoint t.job.checkpoint_data in
      if not (existing.ip_allocation_id == 0) && not (existing.vmid == 0)
      then pure (moved cloning existing)
      else reserve segment_id reservation_ttl t

  -- the wait for a task, which must succeed
  unfoldable pub await_task : ℕ → ℕ → Exec World (Unit {0})
  await_task node upid = do
    success ← ask outside.status (wait_for_task node upid)
    guard success failure

  -- Clone, unless its task is in the checkpoint
  unfoldable pub clone_once :
      TransitionContext → Template → CheckpointData → Exec World CheckpointData
  clone_once t tpl cp =
      if cp.clone_task_upid == 0
      then (do
        upid ← ask outside.task (clone tpl.pve_template_vmid cp.node cp.vmid)
        t.save_checkpoint (record cp { clone_task_upid = upid })
        pure (record cp { clone_task_upid = upid }))
      else pure cp

  -- the clone is accepted once its task has succeeded and the VM is there
  unfoldable pub accept_clone : Template → CheckpointData → Exec World TransitionResult
  unfolding await_task
  accept_clone tpl cp = do
    await_task cp.node cp.clone_task_upid
    ask outside.running (get_vm cp.node cp.vmid)
    pure (record (moved configuring cp) {
      pve_placement =
          some (record { cluster_id = tpl.pve_cluster_id; node = cp.node; vmid = cp.vmid });
    })

  unfoldable pub cloning_handler : Handler
  unfolding clone_once accept_clone
  cloning_handler t = do
    guard (not (t.job.checkpoint_data.vmid == 0)) failure
    tpl ← on_db (Templates.get t.instance_row.template_id)
    cp ← clone_once t tpl (cloning_checkpoint t.job.checkpoint_data)
    accept_clone tpl cp

  unfoldable pub configure_once : TransitionContext → CheckpointData → Exec World CheckpointData
  configure_once t cp =
      if cp.config_task_upid == 0
      then (do
        upid ← ask outside.task (configure cp.node cp.vmid)
        t.save_checkpoint (record cp { config_task_upid = upid })
        pure (record cp { config_task_upid = upid }))
      else pure cp

  unfoldable pub read_mac : CheckpointData → Exec World CheckpointData
  read_mac cp =
      if str_eq cp.nic0_mac ""
      then (do
        mac ← ask outside.mac (get_config cp.node cp.vmid)
        pure (record cp { nic0_mac = mac }))
      else pure cp

  unfoldable pub configuring_handler : Handler
  unfolding await_task configure_once read_mac
  configuring_handler t = do
    guard (not (t.job.checkpoint_data.vmid == 0)) failure
    cp ← configure_once t (configuring_checkpoint t.job.checkpoint_data)
    await_task cp.node cp.config_task_upid
    cp' ← read_mac cp
    pure (moved network_binding cp')
