-- ===== src/Templates/Canary.antt =====
-- internal/template/canary.go: a clone of a template that is started, looked at and removed. The text
-- of the script that it runs in the guest is a parameter, with encoding/json and strconv.
pub mod Ending
pub mod Cleanup
pub mod Verdict
use text.Mathlib.Text.{◌==◌ as str_eq}
use Prim.Native.String
use Prim.Native.String.{◌++◌ as append}
use proxmox_manager.Base.{
  ℕ, zero, suc, ◌+◌, ◌*◌, ◌/◌, String, Bool, true, false, ◌&&◌, not, Option, some, none, List, [],
  ◌∷◌, leb, ltb, ◌==◌, if◌then◌else◌, all,
}
use proxmox_manager.Domain.{ValidationResult, pass, fail}
use proxmox_manager.Validation.Checks.{codes, is_digit_or_lower}
use proxmox_manager.Proxmox.Session.{
  Cluster, Got, got, failed, spinning, other, or_failed, ExecResult, Session, pure, lift, attempt,
  sleep, time_now, ◌>>=◌, ◌>>◌,
}
use proxmox_manager.Proxmox.Messages.{
  VmRef, TaskRef, TaskStatus, CloneRequest, ConfigureRequest, second, is_success,
}
use proxmox_manager.Proxmox.Adapter.{
  allocate_next_vmid, clone, configure, start, stop, delete_vm, guest_ping, wait_for_task,
}
use proxmox_manager.Proxmox.Guest.{wait_exec}

pub record CanaryFacts : Type 0 where
  pub machine_id : String
  pub ssh_host_key_count : ℕ
  pub cloud_init_instance_id : String
  pub nic_count : ℕ
  pub default_route_v4_count : ℕ
  pub default_route_v6_count : ℕ
  pub qga_status : String
  pub time_synchronized : String

pub record CanaryOptions : Type 0 where
  pub node : String
  pub source_vmid : ℕ
  pub storage : String
  pub bridge : String
  pub pool : String
  pub boot_timeout : ℕ

pub record CanaryCheck : Type 0 where
  pub name : String
  pub result : String
  pub expected : String
  pub observed : String

pub record CanaryTools : Type 0 where
  pub itoa : ℕ → String
  pub read_facts : String → Option CanaryFacts
  pub fact_script : String

-- the run, with what its evidence holds
pub record CanaryRun : Type 0 where
  pub started_at : ℕ
  pub finished_at : ℕ
  pub result : ValidationResult
  pub canary_vmid : ℕ
  pub facts : CanaryFacts
  pub checks : List CanaryCheck

unfoldable pub pass_fail : Bool → String
pass_fail passed = if passed then "PASS" else "FAIL"

-- isLowerHex of this package, which holds of the empty text
unfoldable pub is_lower_hex : String → Bool
unfolding is_digit_or_lower
is_lower_hex s = all is_digit_or_lower (codes s)

abbrev canary_check : String → String → String → Bool → CanaryCheck
canary_check name expected observed passed = record {
  name = name;
  result = pass_fail passed;
  expected = expected;
  observed = observed;
}

unfoldable pub evaluate_canary_facts : CanaryTools → CanaryFacts → List CanaryCheck
unfolding pass_fail is_lower_hex
evaluate_canary_facts tools f =
    canary_check "machine_id_format" "32 lowercase hex chars" f.machine_id
      (String.len f.machine_id == 32 && is_lower_hex f.machine_id)
    ∷ canary_check "ssh_host_keys_generated" ">= 1" (tools.itoa f.ssh_host_key_count)
        (leb 1 f.ssh_host_key_count)
    ∷ canary_check "cloud_init_instance_id_present" "non-empty" f.cloud_init_instance_id
        (not (str_eq f.cloud_init_instance_id ""))
    ∷ canary_check "single_nic" "1" (tools.itoa f.nic_count) (f.nic_count == 1)
    ∷ canary_check "single_ipv4_default_route" "1" (tools.itoa f.default_route_v4_count)
        (f.default_route_v4_count == 1)
    ∷ canary_check "no_ipv6_default_route" "0" (tools.itoa f.default_route_v6_count)
        (f.default_route_v6_count == 0)
    ∷ canary_check "qga_active" "active" f.qga_status (str_eq f.qga_status "active")
    ∷ canary_check "time_synchronized" "yes" f.time_synchronized (str_eq f.time_synchronized "yes")
    ∷ []

-- the loop over the checks, which ends at the first that did not pass
unfoldable pub canary_result : List CanaryCheck → ValidationResult
canary_result [] = pass
canary_result (check ∷ checks) =
    let rest = canary_result checks in if str_eq check.result "PASS" then rest else fail

abbrev pub deferring : {A B : Type 0} → Session B → Session A → Session A
deferring end m net = let (r, net') = m net in (r, (end net').1)

module _ (c : Cluster) (tools : CanaryTools) where
  abbrev pub agent_answered : Session (Unit {0}) → Got (Unit {0}) → Session (Unit {0})
  agent_answered again (got u) net = (got tt, net)
  agent_answered again (failed e) net = again net
  agent_answered again spinning net = (spinning, net)

  -- the loop of waitGuestAgent, on fuel
  unfoldable pub poll_guest_agent : ℕ → VmRef → ℕ → Session (Unit {0})
  poll_guest_agent zero ref deadline net = (spinning, net)
  poll_guest_agent (suc fuel) ref deadline net =
      let (r, net') = guest_ping c ref net in
      let again =
        agent_answered (sleep c (5 * second) >> poll_guest_agent fuel ref deadline) r net' in
      if ltb net.now deadline then again else (failed other, net)

  unfoldable pub wait_guest_agent : VmRef → ℕ → Session (Unit {0})
  unfolding poll_guest_agent
  wait_guest_agent ref timeout = do
    now ← time_now
    poll_guest_agent (timeout / (5 * second) + 2) ref (now + timeout)

  -- a task is waited for, and has to be a success
  abbrev pub succeed : TaskRef → ℕ → Session (Unit {0})
  succeed task timeout = do
    status ← wait_for_task c task timeout
    lift (if is_success status then got tt else failed other)

  abbrev pub wait_if_started : Got TaskRef → Session (Got TaskStatus)
  wait_if_started (got task) = attempt (wait_for_task c task (30 * second))
  wait_if_started _ = pure (failed other)

  -- the deferred function, whose errors are dropped; the context of two minutes that it makes is left
  -- out
  unfoldable pub clean_up : VmRef → Session (Got TaskStatus)
  clean_up ref = do
    stopping ← attempt (stop c ref)
    wait_if_started stopping
    deleting ← attempt (delete_vm c ref true)
    wait_if_started deleting

  abbrev pub canary_clone : CanaryOptions → ℕ → CloneRequest
  canary_clone opts vmid = record {
    source_node = opts.node;
    source_vmid = opts.source_vmid;
    target_node = opts.node;
    target_vmid = vmid;
    name = append "vmf-canary-" (tools.itoa vmid);
    storage = opts.storage;
    pool = opts.pool;
    full_clone = true;
    description =
        append
          (append (append "vmf.canary=1 vmf.source_vmid=" (tools.itoa opts.source_vmid))
            " vmf.vmid=")
          (tools.itoa vmid);
  }

  abbrev canary_config : CanaryOptions → VmRef → ConfigureRequest
  canary_config opts ref = record {
    ref = ref;
    cores = 1;
    sockets = 1;
    memory_mb = 512;
    cpu_type = "";
    agent = true;
    on_boot = false;
    net0 = record { bridge = opts.bridge; firewall = true };
    ip_config0 = "ip=dhcp";
  }

  unfoldable pub judge_canary : ℕ → ℕ → CanaryFacts → Session CanaryRun
  unfolding evaluate_canary_facts canary_result
  judge_canary started_at vmid facts = do
    finished ← time_now
    let checks = evaluate_canary_facts tools facts
    pure (record {
      started_at = started_at;
      finished_at = finished;
      result = canary_result checks;
      canary_vmid = vmid;
      facts = facts;
      checks = checks;
    })

  -- Validate from the clone on
  unfoldable pub try_canary : CanaryOptions → ℕ → ℕ → Session CanaryRun
  unfolding wait_guest_agent judge_canary
  try_canary opts started_at vmid = do
    let ref : VmRef = record { node = opts.node; vmid = vmid }
    clone_task ← clone c (canary_clone opts vmid)
    succeed clone_task (180 * second)
    config_task ← configure c (canary_config opts ref)
    succeed config_task (60 * second)
    start_task ← start c ref
    succeed start_task (60 * second)
    wait_guest_agent ref (if opts.boot_timeout == 0 then 120 * second else opts.boot_timeout)
    output ← wait_exec c ref ("bash" ∷ "-c" ∷ tools.fact_script ∷ []) (30 * second)
    lift (if output.exit_code == 0 then got tt else failed other)
    facts ← lift (or_failed (tools.read_facts output.stdout))
    judge_canary started_at vmid facts

  unfoldable pub validate : CanaryOptions → Session CanaryRun
  unfolding clean_up try_canary
  validate opts = do
    started_at ← time_now
    vmid ← allocate_next_vmid c
    deferring (clean_up (record { node = opts.node; vmid = vmid }))
        (try_canary opts started_at vmid)
