-- ===== src/Proxmox/Adapter.antt =====
-- internal/proxmox/adapter.go: the operations on VMs and tasks. A loop of polls takes fuel, and gives
-- itself enough.
use proxmox_manager.Base.{
  ℕ, zero, suc, ◌+◌, ◌*◌, ◌/◌, String, Bool, none, some, [], ◌∷◌, ltb, if◌then◌else◌,
}
use proxmox_manager.Proxmox.Session.{
  Method, get, post, next_id_path, vm_path, clone_path, config_path, current_path, action_path,
  agent_path, task_path, Cluster, Got, got, failed, spinning, or_failed, Session, sleep, pure, lift,
  time_now, ◌>>=◌, ◌>>◌,
}
use proxmox_manager.Proxmox.Client.{do_request}
use proxmox_manager.Proxmox.Messages.{
  VmRef, TaskRef, TaskStatus, CloneRequest, ConfigureRequest, VmObservedState, clone_params,
  configure_params, bool_param, parse_upid, parse_flexible_int, parse_net0_mac, is_done,
  task_timeout, pinged, second, wait_of, task_status_of, observed_state_of,
}

module _ (c : Cluster) where
  -- the end of each operation that starts a task
  abbrev pub task_on : String → String → Session TaskRef
  task_on node raw = do
    upid ← lift (parse_upid c.codec raw)
    pure (record { node = node; upid = upid })

  unfoldable pub allocate_next_vmid : Session ℕ
  allocate_next_vmid = do
    raw ← do_request c get next_id_path none
    lift (parse_flexible_int c.codec raw)

  unfoldable pub clone : CloneRequest → Session TaskRef
  unfolding clone_params parse_upid
  clone r = do
    raw ← do_request c post (clone_path r.source_node r.source_vmid) (some (clone_params r))
    task_on r.source_node raw

  unfoldable pub status_action : String → VmRef → Session TaskRef
  unfolding parse_upid
  status_action action ref = do
    raw ← do_request c post (action_path ref.node ref.vmid action) (some [])
    task_on ref.node raw

  unfoldable pub start : VmRef → Session TaskRef
  unfolding status_action
  start = status_action "start"

  unfoldable pub stop : VmRef → Session TaskRef
  unfolding status_action
  stop = status_action "stop"

  unfoldable pub configure : ConfigureRequest → Session TaskRef
  unfolding configure_params parse_upid
  configure r = do
    raw ← do_request c post (config_path r.ref.node r.ref.vmid) (some (configure_params r))
    task_on r.ref.node raw

  -- Delete
  unfoldable pub delete_vm : VmRef → Bool → Session TaskRef
  unfolding parse_upid
  delete_vm ref purge = do
    raw ←
        do_request c Method.delete (vm_path ref.node ref.vmid)
          (some (("purge", bool_param purge) ∷ []))
    task_on ref.node raw

  unfoldable pub get_task : TaskRef → Session TaskStatus
  get_task task = do
    raw ← do_request c get (task_path task.node task.upid) none
    lift (task_status_of (c.codec.task_status raw))

  unfoldable pub get_vm : VmRef → Session VmObservedState
  get_vm ref = do
    raw ← do_request c get (current_path ref.node ref.vmid) none
    lift (observed_state_of ref (c.codec.vm_status raw))

  -- GetConfig, whose result is the MAC alone
  unfoldable pub get_config : VmRef → Session String
  unfolding parse_net0_mac
  get_config ref = do
    raw ← do_request c get (config_path ref.node ref.vmid) none
    net0 ← lift (or_failed (c.codec.net0 raw))
    pure (parse_net0_mac c.codec net0)

  unfoldable pub guest_ping : VmRef → Session (Unit {0})
  guest_ping ref net =
      let (r, net') = do_request c post (agent_path ref.node ref.vmid "ping") (some []) net in
      (pinged r, net')

  abbrev pub after_status : Session TaskStatus → ℕ → Got TaskStatus → Session TaskStatus
  after_status again deadline (got s) net =
      if is_done s
      then (got s, net)
      else if ltb deadline net.now
      then (failed task_timeout, net)
      else again net
  after_status again deadline (failed e) net = (failed e, net)
  after_status again deadline spinning net = (spinning, net)

  -- the loop of WaitForTask
  unfoldable pub poll_task : ℕ → TaskRef → ℕ → ℕ → Session TaskStatus
  unfolding get_task
  poll_task zero task deadline polls net = (spinning, net)
  poll_task (suc fuel) task deadline polls net =
      let (r, net') = get_task task net in
      after_status (sleep c (wait_of polls) >> poll_task fuel task deadline (suc polls)) deadline r
        net'

  unfoldable pub wait_for_task : TaskRef → ℕ → Session TaskStatus
  unfolding poll_task
  wait_for_task task timeout = do
    now ← time_now
    poll_task (timeout / (10 * second) + 7) task (now + timeout) 0
