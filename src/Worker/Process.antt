-- ===== src/Worker/Process.antt =====
-- cmd/worker/main.go, processJob: the loop that drives one job, on fuel. The heartbeat beside it,
-- logs and metrics are left out.
pub mod Settled
pub mod Drive
use proxmox_manager.Base.{
  ℕ, String, zero, suc, Bool, true, false, Option, none, some, Error, invalid_transition, Result,
  ok, err, if◌then◌else◌,
}
use proxmox_manager.Domain.{InstanceState, JobOperation, ProvisioningJob, VmInstance, provision}
use proxmox_manager.Jobs
use proxmox_manager.Instances
use proxmox_manager.Engine.World.{World, on_db}
use proxmox_manager.Engine.Step.{step}
use proxmox_manager.Engine.Advance.Registry.{Wiring, wire_engine}
use proxmox_manager.Worker.{terminal_state, terminal_fail, fail_or_retry}

-- the engine's wiring, the conversion to int64, the random numbers, the worker's id and the text of an
-- identifier
pub record Slot : Type 0 where
  pub wiring : Wiring
  pub to_int64 : ℕ → ℕ
  pub random : ℕ → ℕ
  pub worker : ℕ
  pub id_text : ℕ → String

-- errors.Is(err, domain.ErrInvalidTransition)
abbrev pub is_invalid_transition : Error → Bool
is_invalid_transition invalid_transition = true
is_invalid_transition _ = false

abbrev pub is_supported : JobOperation → Bool
is_supported provision = true
is_supported JobOperation.rebuild = true
is_supported _ = false

module _ (slot : Slot) where
  -- the loop goes on with the row that was read again, and ends where it cannot be read
  abbrev pub refreshed :
      (ProvisioningJob → World → Option World) → Result ProvisioningJob → World → Option World
  refreshed next (ok job) w = next job w
  refreshed next (err _) w = some w

  abbrev pub after_step :
      (ProvisioningJob → World → Option World)
      → ProvisioningJob
      → VmInstance
      → Result InstanceState × World
      → Option World
  after_step next job inst (ok _, w) = refreshed next (Jobs.get job.id w.db).0 w
  after_step next job inst (err e, w) = some (
      if is_invalid_transition e
      then terminal_fail slot.id_text slot.wiring.outside slot.worker job inst "NO_HANDLER" w
      else fail_or_retry slot.id_text slot.wiring.outside slot.to_int64 slot.random slot.worker job
          "STEP_FAILED" w)

  abbrev pub unless_terminal :
      (ProvisioningJob → World → Option World)
      → ProvisioningJob
      → VmInstance
      → Bool
      → World
      → Option World
  unless_terminal next job inst true w = some (on_db (Jobs.complete job.id slot.worker) w).1
  unless_terminal next job inst false w =
      after_step next job inst (step (wire_engine slot.wiring) job w)

  abbrev pub after_load :
      (ProvisioningJob → World → Option World)
      → ProvisioningJob
      → Result VmInstance
      → World
      → Option World
  after_load next job (ok inst) w = unless_terminal next job inst (terminal_state inst.state) w
  after_load next job (err _) w = some (
      fail_or_retry slot.id_text slot.wiring.outside slot.to_int64 slot.random slot.worker job
        "LOAD_INSTANCE_FAILED" w)

  -- `for { … }`
  unfoldable pub drive : ℕ → ProvisioningJob → World → Option World
  drive zero job w = none
  drive (suc fuel) job w = after_load (drive fuel) job (Instances.get job.instance_id w.db).0 w

  unfoldable pub process_job : ℕ → ProvisioningJob → World → Option World
  unfolding drive
  process_job fuel job w =
      if is_supported job.operation
      then drive fuel job w
      else some (on_db (Jobs.fail job.id slot.worker "UNSUPPORTED_OPERATION" none) w).1
