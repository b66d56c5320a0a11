-- ===== src/Engine/Advance/Refined.antt =====
-- What a step through the worker's handlers does to the rows.
use proxmox_manager.Base.{
  ℕ, ◌≡◌, refl, ap, ◌∙◌, sym, inl, inr, Option, none, some, List, true, false, if◌then◌else◌,
  Result, ok, err, Error, find, find-update_where, find-eq-some, ==_iff, ==_refl, Bool-cases,
  Option-cases, ◌≢◌, ◌+◌, ◌==◌,
}
use mathlib.Core.Option
use mathlib.Core.Option.{some-injective}
use proxmox_manager.Domain.{VmInstance, ProvisioningJob, InstanceState}
use proxmox_manager.Store.{Db}
use proxmox_manager.Jobs
use proxmox_manager.Instances
use proxmox_manager.Engine.World.{World, TransitionResult, Placement}
use proxmox_manager.Engine.Step.{step}
use proxmox_manager.Engine.Step.Transition.{
  Stepped, no_instance, no_handler, handler_failed, not_persisted, advanced, step_lem, written,
  placed_rows,
}
use proxmox_manager.Engine.Advance.{◌⟶◌, IsKept, IsKept-refl, bare, queue_at, map-bare}
use proxmox_manager.Engine.Advance.Registry.{Wiring, wire_engine, wired-Advances}

abbrev pub instance_at : ℕ → Db → Option VmInstance
instance_at k db = find (Instances.has_id k) db.instances

-- the row of one instance is in the state s, one version on; the rest is as it was
pub record IsAdvanced (inst : VmInstance) (s : InstanceState) (db db' : Db) : Type 0 where
  pub here :
      (inst' : VmInstance) × (instance_at inst.id db' ≡ some inst')
      × (inst'.state ≡ s)
      × (inst'.version ≡ inst.version + 1)
  pub elsewhere : (k : ℕ) → k ≢ inst.id → instance_at k db' ≡ instance_at k db
  pub queue : (k : ℕ) → queue_at k db' ≡ queue_at k db

abbrev placed_row : Option Placement → VmInstance → VmInstance
placed_row none i = i
placed_row (some p) i = Instances.placed p.cluster_id p.node p.vmid i

find-placed_rows :
    (id k : ℕ) (p : Option Placement) (rows : List VmInstance)
    → find (Instances.has_id k) (placed_rows id p rows)
      ≡ Option.map (λ i. if i.id == id then placed_row p i else i) (find (Instances.has_id k) rows)
find-placed_rows id k none rows = elim (Option-cases (find (Instances.has_id k) rows)) [
  | inl e ↦ rw e refl
  | inr (i, e) ↦ elim (Bool-cases (i.id == id)) [
    | inl t ↦ rw e (rw t refl)
    | inr t ↦ rw e (rw t refl)
  ]
]
find-placed_rows id k (some p) rows =
    find-update_where (Instances.has_id id) (Instances.has_id k)
      (Instances.placed p.cluster_id p.node p.vmid) (λ x. refl) rows

-- the row that a lookup finds after the transition
find-written :
    (inst : VmInstance) (job : ProvisioningJob) (result : TransitionResult) (db : Db) (k : ℕ)
    → instance_at k (written inst job result db)
      ≡ Option.map
          (λ i. if i.id == inst.id then placed_row result.pve_placement i else i)
          (Option.map
            (λ i. if i.id == inst.id then Instances.in_state result.next_state i else i)
            (instance_at k db))
find-written inst job result db k =
    find-placed_rows inst.id k result.pve_placement _
    ∙ ap (Option.map _) (
        find-update_where (Instances.has_id inst.id) (Instances.has_id k)
          (Instances.in_state result.next_state) (λ x. refl) db.instances)

written-here :
    (inst : VmInstance) (job : ProvisioningJob) (result : TransitionResult) (db : Db)
    → instance_at inst.id db ≡ some inst
    → (inst' : VmInstance) × (instance_at inst.id (written inst job result db) ≡ some inst')
      × (inst'.state ≡ result.next_state)
      × (inst'.version ≡ inst.version + 1)
written-here inst job result db found =
    let row : VmInstance = Instances.in_state result.next_state inst in
    let same : (inst.id == inst.id) ≡ true = ==_refl inst.id in
    (
      placed_row result.pve_placement row,
      find-written inst job result db inst.id ∙ rw found (rw same (rw same refl)),
      placed-state result.pve_placement row,
      placed-version result.pve_placement row,
    )
  where
    placed-state : (p : Option Placement) (i : VmInstance) → (placed_row p i).state ≡ i.state
    placed-state none i = refl
    placed-state (some p) i = refl

    placed-version : (p : Option Placement) (i : VmInstance) → (placed_row p i).version ≡ i.version
    placed-version none i = refl
    placed-version (some p) i = refl

written-elsewhere :
    (inst : VmInstance) (job : ProvisioningJob) (result : TransitionResult) (db : Db) (k : ℕ)
    → k ≢ inst.id
    → instance_at k (written inst job result db) ≡ instance_at k db
written-elsewhere inst job result db k other = elim (Option-cases (instance_at k db)) [
  | inl e ↦ find-written inst job result db k ∙ rw e refl
  | inr (i, e) ↦
      let same : i.id ≡ k =
        (==_iff i.id k).0 (find-eq-some (Instances.has_id k) db.instances i e) in
      let miss : (i.id == inst.id) ≡ false = elim (Bool-cases (i.id == inst.id)) [
        | inl t ↦ absurd (other (sym same ∙ (==_iff i.id inst.id).0 t))
        | inr t ↦ t
      ] in
      find-written inst job result db k ∙ rw e (rw miss (rw miss refl))
]

queue-written :
    (inst : VmInstance) (job : ProvisioningJob) (result : TransitionResult) (db : Db) (k : ℕ)
    → queue_at k (written inst job result db) ≡ queue_at k db
queue-written inst job result db k =
    rw
      (find-update_where (Jobs.has_id job.id) (Jobs.has_id k)
        (Jobs.checkpointed result.next_state result.checkpoint_data) (λ x. refl) db.jobs)
      (map-bare (Jobs.has_id job.id) result.next_state result.checkpoint_data
        (find (Jobs.has_id k) db.jobs))

-- a step of the worker's engine in the abstract
pub data Refines (job : ProvisioningJob) (w : World) : Result InstanceState × World → Type 0 where
  stuck : (e : Error) (w' : World) → IsKept w.db w'.db → Refines job w (err e, w')
  moved :
      (inst : VmInstance) (s : InstanceState) (w' : World)
      → inst.state ⟶ s
      → instance_at job.instance_id w.db ≡ some inst
      → IsAdvanced inst s w.db w'.db
      → Refines job w (ok s, w')

written-IsAdvanced :
    (inst : VmInstance) (job : ProvisioningJob) (result : TransitionResult) (db mid db' : Db)
    → instance_at inst.id db ≡ some inst
    → IsKept db mid
    → db'.instances ≡ (written inst job result mid).instances
    → db'.jobs ≡ (written inst job result mid).jobs
    → IsAdvanced inst result.next_state db db'
written-IsAdvanced inst job result db mid db' found kept rows jobs =
    let (inst', e, s, v) =
      written-here inst job result mid
        (ap (find (Instances.has_id inst.id)) kept.instances ∙ found) in
    record {
      here = (inst', ap (find (Instances.has_id inst.id)) rows ∙ e, s, v);
      elsewhere = λ k other.
          ap (find (Instances.has_id k)) rows
          ∙ written-elsewhere inst job result mid k other
          ∙ ap (find (Instances.has_id k)) kept.instances;
      queue = λ k.
          ap (λ js. Option.map bare (find (Jobs.has_id k) js)) jobs
          ∙ queue-written inst job result mid k
          ∙ kept.queue k;
    }

-- A step with the worker's handlers moves along the graph: it fails with every instance as it was,
-- or it returns a state s with an edge to it from the state of the job's instance, which is in s after
-- the step and one version on, and the other instances are as they were. Either way the rows of
-- the jobs are the same but for their checkpoints.
pub wired_step_lem :
    (c : Wiring) (job : ProvisioningJob) (w : World) → Refines job w (step (wire_engine c) job w)
wired_step_lem c job w = on _ (step_lem (wire_engine c) job w)
  where
    on :
        (out : Result InstanceState × World) → Stepped (wire_engine c) job w out → Refines job w out
    on out (no_instance _) = stuck _ w (IsKept-refl w.db)
    on out (no_handler _ _ _) = stuck _ w (IsKept-refl w.db)
    on out (handler_failed inst handler e w' _ h r) =
        stuck e w' (rw r at (wired-Advances c inst job inst.state handler h w)).0
    on out (not_persisted inst handler result e w' _ h r) =
        stuck e w' (rw r at (wired-Advances c inst job inst.state handler h w)).0
    on out (advanced inst handler result w' db' i h r ev) =
        let (kept, next) = rw r at (wired-Advances c inst job inst.state handler h w) in
        let same : inst.id ≡ job.instance_id =
          (==_iff inst.id job.instance_id).0
            (find-eq-some (Instances.has_id job.instance_id) w.db.instances inst i) in
        let found : instance_at inst.id w.db ≡ some inst = ap (λ k. instance_at k w.db) same ∙ i in
        let neutral = next.1 (written inst job result w'.db) in
        moved inst result.next_state _ next.0 i (
          written-IsAdvanced inst job result w.db w'.db _ found kept
            (sym (ap (λ o. o.1.instances) ev) ∙ neutral.0)
            (sym (ap (λ o. o.1.jobs) ev) ∙ neutral.1))
