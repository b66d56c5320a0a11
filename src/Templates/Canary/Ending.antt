-- ===== src/Templates/Canary/Ending.antt =====
-- The steps of Validate of internal/template/canary.go end.
use proxmox_manager.Base.{
  ℕ, zero, suc, ◌+◌, ◌*◌, ◌/◌, ◌≤◌, ◌==◌, Bool-cases, ltb, ltb→lt, arith, inl, inr,
}
use proxmox_manager.Proxmox.Session.{
  Cluster, Net, Got, got, failed, other, spinning, Session, continue, sleep, send,
}
use proxmox_manager.Proxmox.Client.{do_request}
use proxmox_manager.Proxmox.Messages.{VmRef, TaskRef, TaskStatus, is_success, second}
use proxmox_manager.Proxmox.Adapter.{start, guest_ping, wait_for_task}
use proxmox_manager.Proxmox.Waits.{Ends, Final, wait_for_task_lem, sleep-later}
use proxmox_manager.Proxmox.Effects.{
  clone-Does, configure-Does, status_action-Does, guest_ping-Does, if-Ends, or_failed-Ends,
}
use proxmox_manager.Proxmox.Commands.{wait_exec-Does}
use proxmox_manager.Templates.Canary.{
  CanaryOptions, CanaryTools, succeed, try_canary, poll_guest_agent, wait_guest_agent,
  agent_answered, judge_canary,
}

module _ {A B : Type 0} where
  continue-Ends :
      (result : Got A × Net) (f : A → Session B)
      → Ends result.0
      → ((a : A) (net : Net) → Ends (f a net).0)
      → Ends (continue result.0 f result.1).0
  continue-Ends (got a, net) f h k = k a net
  continue-Ends (failed e, net) f h k = tt
  continue-Ends (spinning, net) f h k = absurd h

Final-Ends : (deadline now : ℕ) (r : Got TaskStatus) → Final deadline now r → Ends r
Final-Ends _ _ (got s) h = tt
Final-Ends _ _ (failed e) h = tt
Final-Ends _ _ spinning h = h

module _ (c : Cluster) (tools : CanaryTools) where
  succeed-Ends :
      (task : TaskRef) (timeout : ℕ) (net : Net) → Ends (succeed c tools task timeout net).0
  succeed-Ends task timeout net =
      continue-Ends (wait_for_task c task timeout net) _
        (Final-Ends _ _ _ (wait_for_task_lem c task timeout net).final)
        (λ s _. if-Ends (is_success s) (got tt) (failed other) tt tt)

  guest_ping-later : (ref : VmRef) (net : Net) → net.now ≤ (guest_ping c ref net).1.now
  unfolding guest_ping do_request send
  guest_ping-later ref net = omega arith

  answered-Ends :
      (again : Session (Unit {0})) (r : Got (Unit {0})) (net : Net)
      → Ends r
      → Ends (again net).0
      → Ends (agent_answered c tools again r net).0
  answered-Ends again (got u) net h k = tt
  answered-Ends again (failed e) net h k = k
  answered-Ends again spinning net h k = h

  sleep-then :
      (d : ℕ) (again : Session (Unit {0})) (net : Net)
      → Ends (again (sleep c d net).1).0
      → Ends (continue (sleep c d net).0 (λ _. again) (sleep c d net).1).0
  unfolding sleep
  sleep-then d again net h = elim (Bool-cases (c.cancelled net.requests)) [
    | inl done ↦ rw done tt
    | inr open_ ↦ rw open_ h
  ]

  poll_guest_agent-Ends :
      (fuel : ℕ) (ref : VmRef) (deadline : ℕ) (net : Net)
      → 1 ≤ fuel
      → deadline + 5 * second ≤ net.now + 5 * second * fuel
      → Ends (poll_guest_agent c tools fuel ref deadline net).0
  unfolding poll_guest_agent
  poll_guest_agent-Ends zero ref deadline net h k = absurd (omega arith)
  poll_guest_agent-Ends (suc fuel) ref deadline net h k =
      let pinged = guest_ping c ref net in
      elim (Bool-cases (ltb net.now deadline)) [
        | inl early ↦ rw early (
            answered-Ends _ pinged.0 pinged.1 (guest_ping-Does c ref net).ended (
              sleep-then (5 * second) _ pinged.1 (
                poll_guest_agent-Ends fuel ref deadline (sleep c (5 * second) pinged.1).1
                  (omega (arith, ltb→lt _ _ early, k))
                  (omega
                    (arith, guest_ping-later ref net, sleep-later c (5 * second) pinged.1, k)))))
        | inr late ↦ rw late tt
      ]

  wait_guest_agent-Ends :
      (ref : VmRef) (timeout : ℕ) (net : Net) → Ends (wait_guest_agent c tools ref timeout net).0
  unfolding wait_guest_agent
  wait_guest_agent-Ends ref timeout net =
      poll_guest_agent-Ends (timeout / (5 * second) + 2) ref (net.now + timeout) net (omega arith)
        (omega arith)

  pub try_canary-Ends :
      (opts : CanaryOptions) (started_at vmid : ℕ) (net : Net)
      → Ends (try_canary c tools opts started_at vmid net).0
  unfolding try_canary judge_canary start
  try_canary-Ends opts started_at vmid net = continue-Ends _ _ (clone-Does c _ net).ended λ t1 n1.
      continue-Ends _ _ (succeed-Ends t1 _ n1) λ _ n2.
        continue-Ends _ _ (configure-Does c _ n2).ended λ t2 n3.
          continue-Ends _ _ (succeed-Ends t2 _ n3) λ _ n4.
            continue-Ends _ _ (status_action-Does c "start" _ n4).ended λ t3 n5.
              continue-Ends _ _ (succeed-Ends t3 _ n5) λ _ n6.
                continue-Ends _ _ (wait_guest_agent-Ends _ _ n6) λ _ n7.
                  continue-Ends _ _ (wait_exec-Does c _ _ _ n7).ended λ output n8.
                    continue-Ends _ _
                      (if-Ends (output.exit_code == 0) (got tt) (failed other) tt tt)
                      λ _ n9.
                        continue-Ends _ _ (or_failed-Ends (tools.read_facts output.stdout))
                          λ facts n10. tt
