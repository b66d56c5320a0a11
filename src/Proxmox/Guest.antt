-- ===== src/Proxmox/Guest.antt =====
-- internal/proxmox/guest.go: commands and files in the guest, through its agent.
use proxmox_manager.Base.{
  ℕ, zero, suc, ◌+◌, ◌/◌, String, not, Option, none, some, List, [], ◌∷◌, map, ltb, ◌==◌,
  if◌then◌else◌,
}
use proxmox_manager.Proxmox.Session.{
  get, post, plain, itoa, base64, agent_path, Params, other, Cluster, Got, got, failed, spinning,
  or_failed, ExecResult, Session, sleep, lift, time_now, ◌>>=◌, ◌>>◌,
}
use proxmox_manager.Proxmox.Client.{do_request}
use proxmox_manager.Proxmox.Messages.{VmRef, second}

-- the key `command` once for each word
abbrev pub command_params : List String → Params
command_params command = map (λ word. ("command", plain word)) command

abbrev pub file_params : String → String → Params
file_params path content =
    ("file", plain path) ∷ ("content", base64 content) ∷ ("encode", plain "0") ∷ []

abbrev pub exec_result_of : Option (ℕ × ℕ × String × String) → Got ExecResult
exec_result_of none = failed other
exec_result_of (some (exited, exit_code, stdout, stderr)) =
    got (record {
      exited = not (exited == 0);
      exit_code = exit_code;
      stdout = stdout;
      stderr = stderr;
    })

abbrev pub written : Got String → Got (Unit {0})
written (got _) = got tt
written (failed e) = failed e
written spinning = spinning

module _ (c : Cluster) where
  unfoldable pub exec : VmRef → List String → Session ℕ
  exec ref command = do
    raw ← do_request c post (agent_path ref.node ref.vmid "exec") (some (command_params command))
    lift (or_failed (c.codec.pid raw))

  unfoldable pub exec_status : VmRef → ℕ → Session ExecResult
  exec_status ref pid = do
    raw ←
        do_request c get (agent_path ref.node ref.vmid "exec-status")
          (some (("pid", itoa pid) ∷ []))
    lift (exec_result_of (c.codec.exec_status raw))

  unfoldable pub write_guest_file : VmRef → String → String → Session (Unit {0})
  write_guest_file ref path content net =
      let params = some (file_params path content) in
      let (r, net') = do_request c post (agent_path ref.node ref.vmid "file-write") params net in
      (written r, net')

  abbrev pub after_exec_status : Session ExecResult → ℕ → Got ExecResult → Session ExecResult
  after_exec_status again deadline (got s) net =
      if s.exited
      then (got s, net)
      else if ltb deadline net.now
      then (failed other, net)
      else again net
  after_exec_status again deadline (failed e) net = (failed e, net)
  after_exec_status again deadline spinning net = (spinning, net)

  -- the loop of WaitExec
  unfoldable pub poll_exec : ℕ → VmRef → ℕ → ℕ → Session ExecResult
  unfolding exec_status
  poll_exec zero ref pid deadline net = (spinning, net)
  poll_exec (suc fuel) ref pid deadline net =
      let (r, net') = exec_status ref pid net in
      after_exec_status (sleep c second >> poll_exec fuel ref pid deadline) deadline r net'

  unfoldable pub wait_exec : VmRef → List String → ℕ → Session ExecResult
  unfolding exec poll_exec
  wait_exec ref command timeout = do
    pid ← exec ref command
    now ← time_now
    poll_exec (timeout / second + 2) ref pid (now + timeout)
