-- ===== src/Proxmox/Waits.antt =====
-- The loops of internal/proxmox that poll: they end, and they change nothing.
use proxmox_manager.Base.{
  ℕ, zero, suc, ◌+◌, ◌-◌, ◌*◌, ◌/◌, ◌<◌, ◌≤◌, Bool, true, false, String, Option, none, some, ◌∷◌,
  ◌≡◌, ◌∙◌, ◌≢◌, refl, inl, inr, Bool-cases, ltb→lt, ltb, leb, ap, if◌then◌else◌, arith, length,
}
use proxmox_manager.Proxmox.Session.{
  get, Endpoint, task_path, Params, Fault, pve, other, auth_failed, Codec, Answer, unreachable,
  response, Code, task_unknown, lift, continue, Cluster, Net, Got, got, failed, spinning, Session,
  send, sleep, changes, or_failed,
}
use proxmox_manager.Proxmox.Client.{
  do_request, read_answer, extract_error_message, classify_error, code_of, request_of,
}
use proxmox_manager.Proxmox.Messages.{
  TaskRef, TaskStatus, is_done, task_timeout, second, wait_of, task_status_of,
}
use proxmox_manager.Proxmox.Adapter.{get_task, after_status, poll_task, wait_for_task}

-- A state after another: no time has gone back, and `n` requests were sent, none of which is a change.
pub record Reads (n : ℕ) (before after : Net) : Type 0 where
  pub later : before.now ≤ after.now
  pub unchanged : changes after.requests ≡ changes before.requests
  pub count : length after.requests ≡ n + length before.requests

pub Reads-trans : {n m k : ℕ} {a b d : Net} → Reads n a b → Reads m b d → k ≡ m + n → Reads k a d
Reads-trans p q e = record {
  later = omega (arith, p.later, q.later);
  unchanged = q.unchanged ∙ p.unchanged;
  count = omega (arith, p.count, q.count);
}

abbrev pub Ends : {A : Type 0} → Got A → Type 0
Ends (got _) = Unit
Ends (failed _) = Unit
Ends spinning = ⊥

-- an error that is not the one of WaitForTask
abbrev NotLate : {A : Type 0} → Got A → Type 0
NotLate (got _) = Unit
NotLate (failed e) = e ≢ task_timeout
NotLate spinning = ⊥

abbrev pub Final : ℕ → ℕ → Got TaskStatus → Type 0
Final deadline now (got s) = is_done s ≡ true
Final deadline now (failed e) = e ≡ task_timeout → deadline < now
Final deadline now spinning = ⊥

or_failed-NotLate : {A : Type 0} (o : Option A) → NotLate (or_failed o)
or_failed-NotLate none = λ h. cc
or_failed-NotLate (some a) = tt

code_of-ne : (status : ℕ) (lower : String) → code_of status lower ≢ task_unknown
unfolding code_of
code_of-ne status lower = ground arith

code_in : Fault → Code
code_in (pve e) = e.code
code_in other = auth_failed

if-NotLate :
    {A : Type 0} (b : Bool) (x y : Got A) → NotLate x → NotLate y → NotLate (if b then x else y)
if-NotLate true x y h k = h
if-NotLate false x y h k = k

read_answer-NotLate : (codec : Codec) (answer : Answer) → NotLate (read_answer codec answer)
unfolding read_answer classify_error code_in
read_answer-NotLate codec unreachable = λ h. cc
read_answer-NotLate codec (response status raw) =
    if-NotLate (leb 300 status) _ (or_failed (codec.envelope raw))
      (λ h. code_of-ne status (codec.to_lower (extract_error_message codec raw)) (ap code_in h))
      (or_failed-NotLate (codec.envelope raw))

-- How a wait that began at `before` and was to end by `deadline` ends: after `most` requests at most,
-- with a status that is final, or with an error that is that of being late only past the deadline.
pub record Waited (deadline most : ℕ) (before : Net) (result : Got TaskStatus × Net) : Type 0 where
  pub final : Final deadline result.1.now result.0
  pub sent : ℕ
  pub bound : sent ≤ most
  pub reads : Reads sent before result.1

Waited-after :
    {n most all deadline : ℕ} {a b : Net} {result : Got TaskStatus × Net}
    → Reads n a b
    → Waited deadline most b result
    → all ≡ n + most
    → Waited deadline all a result
Waited-after {n} p w e = record {
  final = w.final;
  sent = n + w.sent;
  bound = omega (arith, w.bound);
  reads = Reads-trans p w.reads (omega arith);
}

slept-Waited :
    {most deadline : ℕ} (again : Session TaskStatus) (r : Got (Unit {0})) {a b : Net}
    → Reads 0 a b
    → NotLate r
    → Waited deadline most b (again b)
    → Waited deadline most a (continue r (λ _. again) b)
slept-Waited again (got u) p q w = Waited-after p w (omega arith)
slept-Waited again (failed e) p q w = record {
  final = λ h. absurd (q h);
  sent = 0;
  bound = omega arith;
  reads = p;
}
slept-Waited again spinning p q w = absurd q

ended :
    {deadline most : ℕ} {a b : Net} (r : Got TaskStatus)
    → Reads 1 a b
    → Final deadline b.now r
    → Waited deadline (suc most) a (r, b)
ended r p f = record { final = f; sent = 1; bound = omega arith; reads = p }

module _ {A B : Type 0} where
  pub lift-state :
      (r : Got A) (f : A → Got B) (net : Net) → (continue r (λ a. lift (f a)) net).1 ≡ net
  lift-state (got a) f net = refl
  lift-state (failed e) f net = refl
  lift-state spinning f net = refl

  lift-NotLate :
      (r : Got A) (f : A → Got B) (net : Net)
      → NotLate r
      → ((a : A) → NotLate (f a))
      → NotLate (continue r (λ a. lift (f a)) net).0
  lift-NotLate (got a) f net h k = k a
  lift-NotLate (failed e) f net h k = h
  lift-NotLate spinning f net h k = h

task_status_of-NotLate : (o : Option (String × String)) → NotLate (task_status_of o)
task_status_of-NotLate none = λ h. cc
task_status_of-NotLate (some (a, b)) = tt

-- Each wait is of 10 seconds, or one of the first five.
wait_of-pace :
    (polls : ℕ)
    → 10 * second * suc (5 - suc polls) + 10 * second
      ≤ 10 * second * suc (5 - polls) + wait_of polls
unfolding wait_of
wait_of-pace zero = omega arith
wait_of-pace (suc zero) = omega arith
wait_of-pace (suc (suc zero)) = omega arith
wait_of-pace (suc (suc (suc zero))) = omega arith
wait_of-pace (suc (suc (suc (suc zero)))) = omega arith
wait_of-pace (suc (suc (suc (suc (suc n))))) = omega arith

module _ (c : Cluster) where
  pub do_request-Reads :
      (path : Endpoint) (params : Option Params) (net : Net)
      → Reads 1 net (do_request c get path params net).1
  unfolding do_request send changes
  do_request-Reads path params net = record {
    later = omega arith;
    unchanged = refl;
    count = omega arith;
  }

  get_task-Reads : (task : TaskRef) (net : Net) → Reads 1 net (get_task c task net).1
  unfolding get_task
  get_task-Reads task net =
      let asked = do_request c get (task_path task.node task.upid) none net in
      rw (lift-state asked.0 (λ raw. task_status_of (c.codec.task_status raw)) asked.1)
        (do_request-Reads (task_path task.node task.upid) none net)

  get_task-NotLate : (task : TaskRef) (net : Net) → NotLate (get_task c task net).0
  unfolding get_task do_request send
  get_task-NotLate task net =
      let answer = c.answer (request_of get (task_path task.node task.upid) none ∷ net.requests) in
      lift-NotLate (read_answer c.codec answer) (λ raw. task_status_of (c.codec.task_status raw))
        (do_request c get (task_path task.node task.upid) none net).1
        (read_answer-NotLate c.codec answer)
        (λ raw. task_status_of-NotLate (c.codec.task_status raw))

  pub sleep-Reads : (d : ℕ) (net : Net) → Reads 0 net (sleep c d net).1
  unfolding sleep
  sleep-Reads d net = record { later = omega arith; unchanged = refl; count = omega arith }

  pub sleep-later : (d : ℕ) (net : Net) → net.now + d ≤ (sleep c d net).1.now
  unfolding sleep
  sleep-later d net = omega arith

  sleep-NotLate : (d : ℕ) (net : Net) → NotLate (sleep c d net).0
  unfolding sleep
  sleep-NotLate d net = if-NotLate (c.cancelled net.requests) (failed other) (got tt) (λ h. cc) tt

  after_status-Waited :
      {most deadline : ℕ} (again : Session TaskStatus) (r : Got TaskStatus) {a b : Net}
      → Reads 1 a b
      → NotLate r
      → (b.now ≤ deadline → Waited deadline most b (again b))
      → Waited deadline (suc most) a (after_status c again deadline r b)
  after_status-Waited {deadline} again (got s) {a} {b} p q w = elim (Bool-cases (is_done s)) [
    | inl stopped ↦ rw stopped (ended (got s) p stopped)
    | inr running ↦ rw running (elim (Bool-cases (ltb deadline b.now)) [
      | inl late ↦ rw late (ended (failed task_timeout) p (λ _. ltb→lt _ _ late))
      | inr early ↦ rw early (Waited-after p (w (ground arith)) (omega arith))
    ])
  ]
  after_status-Waited again (failed e) p q w = ended (failed e) p (λ h. absurd (q h))
  after_status-Waited again spinning p q w = absurd q

  module _ (task : TaskRef) (deadline : ℕ) where
    poll_task_lem :
        (fuel polls : ℕ) (net : Net)
        → suc (5 - polls) ≤ fuel
        → deadline + 10 * second * suc (5 - polls) < net.now + 10 * second * fuel
        → Waited deadline fuel net (poll_task c fuel task deadline polls net)
    unfolding poll_task
    poll_task_lem zero polls net h k = absurd (omega arith)
    poll_task_lem (suc fuel) polls net h k =
        let read = (get_task c task net).1 in
        let slept = (sleep c (wait_of polls) read).1 in
        after_status-Waited _ (get_task c task net).0 (get_task-Reads task net)
          (get_task-NotLate task net)
          λ early.
            slept-Waited _ (sleep c (wait_of polls) read).0 (sleep-Reads (wait_of polls) read)
              (sleep-NotLate (wait_of polls) read)
              (poll_task_lem fuel (suc polls) slept
                (omega (arith, (get_task-Reads task net).later, early, h, k))
                (omega (
                  arith,
                  (get_task-Reads task net).later,
                  sleep-later (wait_of polls) read,
                  wait_of-pace polls,
                  k,
                )))

  -- WaitForTask ends, whatever the cluster answers: it sends at most one request for each 10 seconds of
  -- the timeout and 7 more, all of them to read, and changes nothing. It returns a final status, or an
  -- error, which is that of being late only past the deadline.
  pub wait_for_task_lem :
      (task : TaskRef) (timeout : ℕ) (net : Net)
      → Waited
          (net.now + timeout)
          (timeout / (10 * second) + 7)
          net
          (wait_for_task c task timeout net)
  unfolding wait_for_task
  wait_for_task_lem task timeout net =
      poll_task_lem task (net.now + timeout) (timeout / (10 * second) + 7) 0 net (omega arith)
        (omega arith)
