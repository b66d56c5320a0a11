-- ===== src/Engine/Workload/Ready.antt =====
-- What READY stands on.
use text.Mathlib.Text.{◌==◌ as str_eq}
use text.Mathlib.TextEquality.{eq_iff}
use proxmox_manager.Base.{
  ℕ, zero, suc, ◌≢◌, ◌⊎◌, ap, if◌then◌else◌, String, ◌≡◌, refl, inl, inr, Bool, true, false, Option,
  none, some, List, ◌∷◌, Bool-cases, Option-cases, Result-cases, ◌==◌, Result, ok, err, failure,
}
use proxmox_manager.Domain.{
  CheckpointData, InstanceState, RunType, ValidationResult, pass, fail, ready,
}
use proxmox_manager.Engine.World.{
  Outside, World, Call, TransitionContext, TransitionResult, ask, moved, install, validate, health,
}
use proxmox_manager.Engine.Evidence.{create_run}
use proxmox_manager.Engine.Gate.{set_aside, judge-false}
use proxmox_manager.Engine.Validating.{judge}
use proxmox_manager.Engine.Workload.{
  WorkloadAdapter, adapter_name, poll_health, apply_workload, judge_workload,
  applying_workload_handler,
}

abbrev pub IsUnnamed : Option String → Type 0
IsUnnamed own = (own ≡ none) ⊎ (own ≡ some "")

-- the instance's own adapter, or else the default, or else noop
abbrev pub IsAdapterName : String → Option String → String → Type 0
IsAdapterName default own name =
    ((own ≡ some name) × (name ≢ ""))
    ⊎ (IsUnnamed own × (default ≢ "") × (name ≡ default))
    ⊎ (IsUnnamed own × (default ≡ "") × (name ≡ "noop"))

default_name :
    (default : String) (own : Option String)
    → IsUnnamed own
    → IsAdapterName default own (if str_eq default "" then "noop" else default)
default_name default own u = elim (Bool-cases (str_eq default "")) [
  | inl e ↦ rw e (inr (inr (u, (eq_iff default "").0 e, refl)))
  | inr e ↦ rw e (inr (inl (u, (λ p. cc (e, (eq_iff default "").1 p)), refl)))
]

adapter_name-IsAdapterName :
    (default : String) (own : Option String) → IsAdapterName default own (adapter_name default own)
unfolding adapter_name
adapter_name-IsAdapterName default none = default_name default none (inl refl)
adapter_name-IsAdapterName default (some name) = elim (Bool-cases (str_eq name "")) [
  | inl e ↦ rw e (default_name default (some name) (inr (ap some ((eq_iff name "").0 e))))
  | inr e ↦ rw e (inl (refl, λ p. cc (e, (eq_iff name "").1 p)))
]

-- the last call was a poll of the health, and the answer was healthy
abbrev pub Healthy : WorkloadAdapter → CheckpointData → List Call → Type 0
Healthy adapter cp calls =
    (before : List Call) × (calls ≡ health cp.node cp.vmid ∷ before)
    × (adapter.healthy (health cp.node cp.vmid ∷ before) ≡ ok true)

-- the calls that leave a workload in service
abbrev pub Applied : WorkloadAdapter → CheckpointData → List Call → List Call → Type 0
Applied adapter cp before after =
    (adapter.install (install cp.node cp.vmid ∷ before) ≡ ok tt)
    × (adapter.valid (validate cp.node cp.vmid ∷ install cp.node cp.vmid ∷ before) ≡ ok true)
    × Healthy adapter cp after

poll_health_lem :
    (adapter : WorkloadAdapter) (cp : CheckpointData) (polls : ℕ) (w : World)
    → (b : Bool) × (calls : List Call) × (poll_health adapter cp.node cp.vmid polls w
        ≡ (ok b, record w { calls = calls }))
      × (b ≡ true → Healthy adapter cp calls)
unfolding poll_health ask
poll_health_lem adapter cp zero w =
    let now : List Call = health cp.node cp.vmid ∷ w.calls in
    elim (Result-cases (adapter.healthy now)) [
      | inl (true, e) ↦ (true, now, rw e refl, λ _. (w.calls, refl, e))
      | inl (false, e) ↦ (false, now, rw e refl, λ p. cc)
      | inr (_, e) ↦ (false, now, rw e refl, λ p. cc)
    ]
poll_health_lem adapter cp (suc polls) w =
    let now : List Call = health cp.node cp.vmid ∷ w.calls in
    let (b, calls, p, h) = poll_health_lem adapter cp polls (record w { calls = now }) in
    elim (Result-cases (adapter.healthy now)) [
      | inl (true, e) ↦ (true, now, rw e refl, λ _. (w.calls, refl, e))
      | inl (false, e) ↦ (b, calls, rw e p, h)
      | inr (_, e) ↦ (b, calls, rw e p, h)
    ]

apply_workload_lem :
    (adapter : WorkloadAdapter) (cp : CheckpointData) (polls : ℕ) (w : World)
    → (b : Bool) × (calls : List Call) × (apply_workload adapter cp polls w
        ≡ (ok b, record w { calls = calls }))
      × (b ≡ true → Applied adapter cp w.calls calls)
unfolding apply_workload ask
apply_workload_lem adapter cp polls w =
    let installed : List Call = install cp.node cp.vmid ∷ w.calls in
    let checked : List Call = validate cp.node cp.vmid ∷ installed in
    let (b, calls, p, h) = poll_health_lem adapter cp polls (record w { calls = checked }) in
    elim (Result-cases (adapter.install installed)) [
      | inr (_, i) ↦ (false, installed, rw i refl, λ q. cc)
      | inl (_, i) ↦ elim (Result-cases (adapter.valid checked)) [
        | inl (true, v) ↦ (b, calls, rw i (rw p (rw v refl)), λ q. (i, v, h q))
        | inl (false, v) ↦ (false, calls, rw i (rw p (rw v refl)), λ q. cc)
        | inr (_, v) ↦ (false, calls, rw i (rw p (rw v refl)), λ q. cc)
      ]
    ]

module _ (outside : Outside) (t : TransitionContext) where
  abbrev pub with_run : InstanceState → ValidationResult → TransitionResult
  with_run next result = record (moved next t.job.checkpoint_data) {
    persist_evidence = create_run t.instance_row.id t.job.id RunType.workload result;
  }

  judge_workload-false :
      (w : World)
      → judge_workload outside t false w
        ≡ (ok (with_run InstanceState.quarantined fail), set_aside t.job.checkpoint_data w)
  unfolding judge_workload
  judge_workload-false w = rw (judge-false outside t.job.checkpoint_data ready w) refl

  module _ (adapters : String → Option WorkloadAdapter) (default : String) (polls : ℕ)
      (w : World) where
    -- What the handler of APPLYING_WORKLOAD does, by the adapter's answers.
    pub data ReadyGate : Result TransitionResult × World → Type 0 where
      unplaced : (t.job.checkpoint_data.vmid == 0) ≡ true → ReadyGate (err failure, w)
      unknown_adapter :
          (name : String)
          → IsAdapterName default t.instance_row.workload_adapter name
          → adapters name ≡ none
          → ReadyGate (err failure, w)
      passed :
          (name : String) (adapter : WorkloadAdapter) (calls : List Call)
          → IsAdapterName default t.instance_row.workload_adapter name
          → adapters name ≡ some adapter
          → Applied adapter t.job.checkpoint_data w.calls calls
          → ReadyGate (ok (with_run ready pass), record w { calls = calls })
      refused :
          (name : String) (adapter : WorkloadAdapter) (calls : List Call)
          → IsAdapterName default t.instance_row.workload_adapter name
          → adapters name ≡ some adapter
          → apply_workload adapter t.job.checkpoint_data polls w
            ≡ (ok false, record w { calls = calls })
          → ReadyGate (
            ok (with_run InstanceState.quarantined fail),
            set_aside t.job.checkpoint_data (record w { calls = calls }),
          )

    judged :
        (adapter : WorkloadAdapter) (calls : List Call)
        → adapters (adapter_name default t.instance_row.workload_adapter) ≡ some adapter
        → (b : Bool)
        → apply_workload adapter t.job.checkpoint_data polls w ≡ (ok b, record w { calls = calls })
        → (b ≡ true → Applied adapter t.job.checkpoint_data w.calls calls)
        → ReadyGate (judge_workload outside t b (record w { calls = calls }))
    judged adapter calls a true p h =
        unfold judge_workload judge in
        passed _ adapter calls (adapter_name-IsAdapterName default t.instance_row.workload_adapter)
          a (h refl)
    judged adapter calls a false p h = rw (judge_workload-false (record w { calls = calls })) (
        refused _ adapter calls (adapter_name-IsAdapterName default t.instance_row.workload_adapter)
          a p)

    -- The handler of APPLYING_WORKLOAD fails without a change where the checkpoint has no VM or
    -- the instance's adapter (its own or else the default or else noop) is not registered. It moves to READY only where the adapter's
    -- installation succeeded, its validation said valid and its last call, a poll of the health,
    -- said healthy, with a run whose result is PASS as evidence and the database as it was.
    -- Otherwise, an artifact that was refused included, it moves to QUARANTINED and neither rolls
    -- back nor tries again, with a run whose result is FAIL, after it has asked for the
    -- suspension of the mapping and marked the address as quarantined, where there are such.
    pub applying_workload_handler_lem :
        ReadyGate (applying_workload_handler outside adapters default polls t w)
    unfolding applying_workload_handler
    applying_workload_handler_lem = elim (Bool-cases (t.job.checkpoint_data.vmid == 0)) [
      | inl z ↦ rw z (unplaced z)
      | inr z ↦
          elim (Option-cases (adapters (adapter_name default t.instance_row.workload_adapter))) [
            | inl a ↦ rw z (
                rw a (
                  unknown_adapter _
                    (adapter_name-IsAdapterName default t.instance_row.workload_adapter) a))
            | inr (adapter, a) ↦
                let (b, calls, p, h) = apply_workload_lem adapter t.job.checkpoint_data polls w in
                rw z (rw a (rw p (judged adapter calls a b p h)))
          ]
    ]
