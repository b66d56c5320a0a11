-- ===== src/Worker.antt =====
-- cmd/worker/main.go: what the worker does with a step that failed. Times are nanoseconds.
pub mod Backoff
pub mod Process
use Prim.Native.String.{◌++◌ as append}
use proxmox_manager.Base.{
  ℕ, String, ◌+◌, ◌-◌, ◌*◌, ◌/◌, ◌%◌, ◌^◌, Bool, true, false, ◌||◌, Option, none, some, ltb, leb,
  ◌==◌, if◌then◌else◌, Result, ok, err, Exec,
}
use proxmox_manager.Domain.{InstanceState, ProvisioningJob, VmInstance}
use proxmox_manager.Jobs
use proxmox_manager.Alerts.{NewAlert, upsert}
use proxmox_manager.Instances
use proxmox_manager.Engine.World.{Outside, World, on_db}
use proxmox_manager.Engine.Rollback

abbrev pub terminal_state : InstanceState → Bool
terminal_state InstanceState.ready = true
terminal_state InstanceState.quarantined = true
terminal_state _ = false

abbrev pub base : ℕ
base = 15000000000

abbrev pub max_delay : ℕ
max_delay = 300000000000

-- The 64 bits of the product; as an int64 it is negative from 2 ^ 63 on. The float64 power is
-- exact, and its conversion is `to_int64`, which only matters from 2 ^ 63 on.
unfoldable pub exponential : (ℕ → ℕ) → ℕ → ℕ
exponential to_int64 attempt =
    let a = if ltb attempt 1 then 1 else attempt in (to_int64 (2 ^ (a - 1)) * base) % 2 ^ 64

-- `d <= 0 || d > maxDelay`
abbrev pub capped : ℕ → ℕ
capped d = if d == 0 || leb (2 ^ 63) d || ltb max_delay d then max_delay else d

-- `random n` is rand.Int63n(n)
unfoldable pub backoff_delay : (ℕ → ℕ) → (ℕ → ℕ) → ℕ → ℕ
unfolding exponential
backoff_delay to_int64 random attempt =
    let d = capped (exponential to_int64 attempt) in d + random (d / 4 + 1)

abbrev pub is_quarantined : InstanceState → Bool
is_quarantined InstanceState.quarantined = true
is_quarantined _ = false

abbrev pub incomplete_alert : String → NewAlert
incomplete_alert id = record {
  fingerprint = append "rollback_incomplete:" id;
  severity = "critical";
  resource_type = "vm_instance";
  resource_id = id;
}

-- a rollback that ends in QUARANTINED raises an alert
abbrev pub alerted : (ℕ → String) → VmInstance → Result InstanceState × World → World
alerted id_text inst (ok s, w) =
    if is_quarantined s
    then record w { db = upsert (incomplete_alert (id_text inst.id)) w.db }
    else w
alerted id_text inst (err _, w) = w

-- Fail, then the rollback if Fail succeeded; the errors are logged
abbrev after_fail :
    (ℕ → String) → Outside → VmInstance → ProvisioningJob → Result (Unit {0}) × World → World
after_fail id_text outside inst job (ok _, w) =
    alerted id_text inst (Rollback.execute outside inst job w)
after_fail id_text outside inst job (err _, w) = w

-- `id_text` is the text of an identifier
unfoldable pub terminal_fail :
    (ℕ → String) → Outside → ℕ → ProvisioningJob → VmInstance → String → World → World
terminal_fail id_text outside worker job inst code w =
    after_fail id_text outside inst job (on_db (Jobs.fail job.id worker code none) w)

abbrev loaded :
    (ℕ → String) → Outside → ℕ → ProvisioningJob → String → Result VmInstance → World → World
loaded id_text outside worker job code (ok inst) w =
    terminal_fail id_text outside worker job inst code w
loaded id_text outside worker job code (err _) w = (on_db (Jobs.fail job.id worker code none) w).1

unfoldable pub fail_or_retry :
    (ℕ → String) → Outside → (ℕ → ℕ) → (ℕ → ℕ) → ℕ → ProvisioningJob → String → World → World
unfolding backoff_delay terminal_fail
fail_or_retry id_text outside to_int64 random worker job code w =
    if ltb job.attempt job.max_attempts
    then (on_db
        (Jobs.fail job.id worker code (some (w.db.now + backoff_delay to_int64 random job.attempt)))
        w).1
    else loaded id_text outside worker job code (Instances.get job.instance_id w.db).0 w
