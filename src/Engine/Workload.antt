-- ===== src/Engine/Workload.antt =====
-- internal/stateengine/handlers_workload.go: from APPLYING_WORKLOAD to READY.
pub mod Ready
use text.Mathlib.Text.{◌==◌ as str_eq}
use proxmox_manager.Base.{
  ℕ, zero, suc, String, Bool, true, false, ◌&&◌, not, Option, none, some, List, ◌==◌, if◌then◌else◌,
  Exec, Result, ok, err, pure, guard, attempt, failure, or_raise, ◌>>=◌, ◌>>◌,
}
use proxmox_manager.Domain.{CheckpointData, RunType, pass, fail, ready}
use proxmox_manager.Engine.World.{
  Outside, World, Call, TransitionContext, TransitionResult, Handler, ask, moved, install, validate,
  health,
}
use proxmox_manager.Engine.Evidence.{create_run}
use proxmox_manager.Engine.Rollback.{is_ok}
use proxmox_manager.Engine.Validating.{judge}

-- workload.Adapter, by the answers in the guest: `report.Valid` and `report.Healthy`
pub record WorkloadAdapter : Type 0 where
  pub install : List Call → Result (Unit {0})
  pub valid : List Call → Result Bool
  pub healthy : List Call → Result Bool

-- the value beside an error is the zero report
abbrev pub holds_ok : Result Bool → Bool
holds_ok (ok b) = b
holds_ok (err _) = false

-- the adapter's name: the instance's if it has one, else the default
unfoldable pub adapter_name : String → Option String → String
adapter_name default none = if str_eq default "" then "noop" else default
adapter_name default (some name) =
    if str_eq name "" then (if str_eq default "" then "noop" else default) else name

-- pollHealth; `polls` more polls begin before the deadline
unfoldable pub poll_health : WorkloadAdapter → ℕ → ℕ → ℕ → Exec World Bool
poll_health adapter node vmid zero = do
  report ← attempt (ask adapter.healthy (health node vmid))
  pure (holds_ok report)
poll_health adapter node vmid (suc polls) = do
  report ← attempt (ask adapter.healthy (health node vmid))
  if holds_ok report then pure true else poll_health adapter node vmid polls

abbrev pub check_installed : WorkloadAdapter → CheckpointData → ℕ → Bool → Exec World Bool
check_installed adapter cp polls true = do
  valid ← attempt (ask adapter.valid (validate cp.node cp.vmid))
  healthy ← poll_health adapter cp.node cp.vmid polls
  pure (holds_ok valid && healthy)
check_installed adapter cp polls false = pure false

-- Install, then Validate and Health if it succeeded
unfoldable pub apply_workload : WorkloadAdapter → CheckpointData → ℕ → Exec World Bool
apply_workload adapter cp polls = do
  installed ← attempt (ask adapter.install (install cp.node cp.vmid))
  check_installed adapter cp polls (is_ok installed)

module _ (outside : Outside) where
  unfoldable pub judge_workload : TransitionContext → Bool → Exec World TransitionResult
  unfolding judge create_run
  judge_workload t passed = do
    next ← judge outside t.job.checkpoint_data passed ready
    pure (record (moved next t.job.checkpoint_data) {
      persist_evidence =
          create_run t.instance_row.id t.job.id RunType.workload (if passed then pass else fail);
    })

  unfoldable pub applying_workload_handler :
      (String → Option WorkloadAdapter) → String → ℕ → Handler
  unfolding apply_workload judge_workload
  applying_workload_handler adapters default polls t = do
    guard (not (t.job.checkpoint_data.vmid == 0)) failure
    adapter ← or_raise failure (adapters (adapter_name default t.instance_row.workload_adapter))
    passed ← apply_workload adapter t.job.checkpoint_data polls
    judge_workload t passed
