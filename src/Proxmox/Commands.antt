-- ===== src/Proxmox/Commands.antt =====
-- WaitExec of internal/proxmox/guest.go: a command ends, and is one change.
use proxmox_manager.Base.{
  ℕ, zero, suc, ◌+◌, ◌*◌, ◌/◌, ◌<◌, ◌≤◌, Bool, true, false, String, Option, none, some, List, [],
  ◌∷◌, ◌≡◌, ◌∙◌, refl, if◌then◌else◌, ltb, arith,
}
use proxmox_manager.Proxmox.Session.{
  get, post, itoa, agent_path, Request, Cluster, Net, Got, got, failed, spinning, other, ExecResult,
  Session, sleep, changes, continue, lift, or_failed,
}
use proxmox_manager.Proxmox.Client.{do_request, request_of}
use proxmox_manager.Proxmox.Messages.{VmRef, second}
use proxmox_manager.Proxmox.Guest.{
  exec, exec_status, exec_result_of, wait_exec, poll_exec, after_exec_status, command_params,
}
use proxmox_manager.Proxmox.Waits.{Reads, Ends, do_request-Reads, sleep-Reads, sleep-later}
use proxmox_manager.Proxmox.Effects.{
  Does, do_request-Ends, post-Does, or_failed-Ends, continue-Still, if-Ends,
}

-- the request of a command
abbrev pub exec_request : VmRef → List String → Request
exec_request ref command =
    request_of post (agent_path ref.node ref.vmid "exec") (some (command_params command))

-- a loop of polls that ends and changes nothing
record Polled (before : Net) (result : Got ExecResult × Net) : Type 0 where
  over : Ends result.0
  same : changes result.1.requests ≡ changes before.requests

Polled-after :
    {n : ℕ} {a b : Net} {result : Got ExecResult × Net}
    → Reads n a b
    → Polled b result
    → Polled a result
Polled-after p w = record { over = w.over; same = w.same ∙ p.unchanged }

polled : {n : ℕ} {a b : Net} (r : Got ExecResult) → Reads n a b → Ends r → Polled a (r, b)
polled r p h = record { over = h; same = p.unchanged }

if-Polled :
    {a : Net} (test : Bool) (x y : Got ExecResult × Net)
    → (test ≡ true → Polled a x)
    → (test ≡ false → Polled a y)
    → Polled a (if test then x else y)
if-Polled true x y h k = h refl
if-Polled false x y h k = k refl

slept-Polled :
    (again : Session ExecResult) (r : Got (Unit {0})) {a b : Net}
    → Reads 0 a b
    → Ends r
    → Polled b (again b)
    → Polled a (continue r (λ _. again) b)
slept-Polled again (got u) p h w = Polled-after p w
slept-Polled again (failed e) p h w = polled (failed e) p tt
slept-Polled again spinning p h w = absurd h

exec_result_of-Ends : (o : Option (ℕ × ℕ × String × String)) → Ends (exec_result_of o)
exec_result_of-Ends none = tt
exec_result_of-Ends (some (a, b, d, e)) = tt

module _ (c : Cluster) where
  exec_status-Reads :
      (ref : VmRef) (pid : ℕ) (net : Net)
      → Ends (exec_status c ref pid net).0 × Reads 1 net (exec_status c ref pid net).1
  unfolding exec_status
  exec_status-Reads ref pid net =
      let path = agent_path ref.node ref.vmid "exec-status" in
      let params = some (("pid", itoa pid) ∷ []) in
      let (r, net') = do_request c get path params net in
      let still =
        continue-Still r (λ raw. lift (exec_result_of (c.codec.exec_status raw))) net'
          (do_request-Ends c get path params net)
          (λ raw. (exec_result_of-Ends (c.codec.exec_status raw), refl)) in
      (still.0, rw still.1 (do_request-Reads c path params net))

  sleep-Ends : (d : ℕ) (net : Net) → Ends (sleep c d net).0
  unfolding sleep
  sleep-Ends d net = if-Ends (c.cancelled net.requests) (failed other) (got tt) tt tt

  after_exec_status-Polled :
      {deadline : ℕ} (again : Session ExecResult) (r : Got ExecResult) {a b : Net}
      → Reads 1 a b
      → Ends r
      → (b.now ≤ deadline → Polled b (again b))
      → Polled a (after_exec_status c again deadline r b)
  after_exec_status-Polled {deadline} again (got s) {a} {b} p h w =
      if-Polled s.exited (got s, b) _ (λ _. polled (got s) p tt)
        λ _.
          if-Polled (ltb deadline b.now) (failed other, b) (again b)
            (λ _. polled (failed other) p tt) λ early. Polled-after p (w (ground arith))
  after_exec_status-Polled again (failed e) p h w = polled (failed e) p tt
  after_exec_status-Polled again spinning p h w = absurd h

  module _ (ref : VmRef) (pid deadline : ℕ) where
    poll_exec_lem :
        (fuel : ℕ) (net : Net)
        → 1 ≤ fuel
        → deadline + second < net.now + second * fuel
        → Polled net (poll_exec c fuel ref pid deadline net)
    unfolding poll_exec
    poll_exec_lem zero net h k = absurd (omega arith)
    poll_exec_lem (suc fuel) net h k =
        let status = exec_status-Reads ref pid net in
        let read = (exec_status c ref pid net).1 in
        let slept = (sleep c second read).1 in
        after_exec_status-Polled _ (exec_status c ref pid net).0 status.1 status.0 λ early.
          slept-Polled _ (sleep c second read).0 (sleep-Reads c second read)
            (sleep-Ends second read)
            (poll_exec_lem fuel slept (omega (arith, status.1.later, early, k))
              (omega (arith, status.1.later, sleep-later c second read, k)))

  exec-Does :
      (ref : VmRef) (command : List String) (net : Net)
      → Does (exec_request ref command) net (exec c ref command net)
  unfolding exec
  exec-Does ref command net =
      post-Does c _ _ (λ raw. lift (or_failed (c.codec.pid raw))) net
        (λ raw _. (or_failed-Ends (c.codec.pid raw), refl))

  started :
      {r : Request} {before : Net} (ref : VmRef) (timeout : ℕ) (result : Got ℕ × Net)
      → Does r before result
      → Does r before (
          continue result.0
            (λ pid net. poll_exec c (timeout / second + 2) ref pid (net.now + timeout) net)
            result.1)
  started ref timeout (got pid, net) d =
      let p =
        poll_exec_lem ref pid (net.now + timeout) (timeout / second + 2) net (omega arith)
          (omega arith) in
      record { ended = p.over; change = p.same ∙ d.change }
  started ref timeout (failed e, net) d = record { ended = tt; change = d.change }
  started ref timeout (spinning, net) d = absurd d.ended

  pub wait_exec-Does :
      (ref : VmRef) (command : List String) (timeout : ℕ) (net : Net)
      → Does (exec_request ref command) net (wait_exec c ref command timeout net)
  unfolding wait_exec
  wait_exec-Does ref command timeout net = started ref timeout _ (exec-Does ref command net)
