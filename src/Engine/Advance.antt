-- ===== src/Engine/Advance.antt =====
-- The graph of the states that the handlers go through, and what a handler leaves alone on its way.
pub mod Handlers
pub mod Gates
pub mod Registry
pub mod Refined
use mathlib.Core.Option
use proxmox_manager.Base.{
  ℕ, ◌≡◌, refl, sym, ap, ◌∙◌, Bool, true, false, Option, none, some, List, find, find-update_where,
  Exec, Result, ok, err, Error, guard, continue, ◌>>=◌, inl, inr, if◌then◌else◌, Bool-cases,
  Option-cases,
}
use proxmox_manager.Domain.{
  InstanceState, CheckpointData, ProvisioningJob, empty_checkpoint, requested, reserving, cloning,
  configuring, network_binding, booting, waiting_guest, validating_egress, applying_workload, ready,
}
use proxmox_manager.Store.{Db}
use proxmox_manager.Jobs
use proxmox_manager.Engine.World.{World, TransitionResult, Call, ask, on_db}
use proxmox_manager.Engine.Step.Transition.{update_checkpoint_lem}

-- the transitions on the way from REQUESTED to READY, and those out of it
infix 4 ◌⟶◌
pub data ◌⟶◌ : InstanceState → InstanceState → Type 0 where
  accept : requested ⟶ reserving
  reserve : reserving ⟶ cloning
  clone : cloning ⟶ configuring
  configure : configuring ⟶ network_binding
  bind : network_binding ⟶ booting
  boot : booting ⟶ waiting_guest
  identify : waiting_guest ⟶ validating_egress
  refuse_identity : waiting_guest ⟶ InstanceState.quarantined
  prove : validating_egress ⟶ applying_workload
  refuse_egress : validating_egress ⟶ InstanceState.quarantined
  serve : applying_workload ⟶ ready
  refuse_workload : applying_workload ⟶ InstanceState.quarantined

-- a job but for its checkpoint
abbrev pub bare : ProvisioningJob → ProvisioningJob
bare j = record j { checkpoint = requested; checkpoint_data = empty_checkpoint }

abbrev pub queue_at : ℕ → Db → Option ProvisioningJob
queue_at k db = Option.map bare (find (Jobs.has_id k) db.jobs)

-- the instances are the same, and the jobs but for their checkpoints
pub record IsKept (db db' : Db) : Type 0 where
  pub instances : db'.instances ≡ db.instances
  pub queue : (k : ℕ) → queue_at k db' ≡ queue_at k db

pub IsKept-refl : (db : Db) → IsKept db db
IsKept-refl db = record { instances = refl; queue = λ k. refl }

pub IsKept-trans : (a b c : Db) → IsKept a b → IsKept b c → IsKept a c
IsKept-trans a b c p q = record {
  instances = q.instances ∙ p.instances;
  queue = λ k. q.queue k ∙ p.queue k;
}

-- nothing but tables that neither instances nor jobs are in
pub IsKept-eq : (db db' : Db) → db'.instances ≡ db.instances → db'.jobs ≡ db.jobs → IsKept db db'
IsKept-eq db db' p q = record { instances = p; queue = λ k. rw q refl }

checkpointed-bare :
    (b : Bool) (s : InstanceState) (cp : CheckpointData) (x : ProvisioningJob)
    → bare (if b then Jobs.checkpointed s cp x else x) ≡ bare x
checkpointed-bare true s cp x = refl
checkpointed-bare false s cp x = refl

pub map-bare :
    (p : ProvisioningJob → Bool) (s : InstanceState) (cp : CheckpointData)
    (o : Option ProvisioningJob)
    → Option.map bare (Option.map (λ x. if p x then Jobs.checkpointed s cp x else x) o)
      ≡ Option.map bare o
map-bare p s cp none = refl
map-bare p s cp (some x) = ap some (checkpointed-bare (p x) s cp x)

pub IsKept-checkpoint :
    (id : ℕ) (s : InstanceState) (cp : CheckpointData) (db : Db)
    → IsKept db (Jobs.update_checkpoint id s cp db).1
IsKept-checkpoint id s cp db = elim (update_checkpoint_lem id s cp db) [
  | inl e ↦ rw e (IsKept-refl db)
  | inr e ↦ rw e (record {
    instances = refl;
    queue = λ k.
        rw
          (find-update_where (Jobs.has_id id) (Jobs.has_id k) (Jobs.checkpointed s cp) (λ x. refl)
            db.jobs)
          (map-bare (Jobs.has_id id) s cp (find (Jobs.has_id k) db.jobs));
  })
]

-- an action keeps them, whatever its result
abbrev pub Keeps : {A : Type 0} → Exec World A → Type 0
Keeps m = (w : World) → IsKept w.db (m w).1.db

abbrev pub Neutral : Exec Db (Unit {0}) → Type 0
Neutral m = (db : Db) → ((m db).1.instances ≡ db.instances) × ((m db).1.jobs ≡ db.jobs)

abbrev pub Next : InstanceState → Result TransitionResult → Type 0
Next s (err _) = Unit
Next s (ok r) = (s ⟶ r.next_state) × Neutral r.persist_evidence

-- an action keeps them and returns a transition from s, with evidence that keeps them too
abbrev pub Advances : InstanceState → Exec World TransitionResult → Type 0
Advances s m = (w : World) → IsKept w.db (m w).1.db × Next s (m w).0

pub Keeps-ask : {A : Type 0} (answer : List Call → Result A) (c : Call) → Keeps (ask answer c)
unfolding ask
Keeps-ask answer c w = IsKept-refl w.db

module _ {A : Type 0} (s : InstanceState) (m : Exec World A)
    (f : A → Exec World TransitionResult) where
  continue-Advances :
      (r : Result A) (w w' : World)
      → IsKept w.db w'.db
      → ((a : A) → Advances s (f a))
      → let out = continue r f w' in IsKept w.db out.1.db × Next s out.0
  continue-Advances (ok a) w w' k h =
      (IsKept-trans w.db w'.db (f a w').1.db k (h a w').0, (h a w').1)
  continue-Advances (err e) w w' k h = (k, tt)

  pub Advances-bind : Keeps m → ((a : A) → Advances s (f a)) → Advances s (m >>= f)
  Advances-bind k h w = continue-Advances (m w).0 w (m w).1 (k w) h

module _ {A B : Type 0} (m : Exec World A) (f : A → Exec World B) where
  continue-IsKept :
      (r : Result A) (w w' : World)
      → IsKept w.db w'.db
      → ((a : A) → Keeps (f a))
      → IsKept w.db (continue r f w').1.db
  continue-IsKept (ok a) w w' k h = IsKept-trans w.db w'.db (f a w').1.db k (h a w')
  continue-IsKept (err e) w w' k h = k

  pub Keeps-bind : Keeps m → ((a : A) → Keeps (f a)) → Keeps (m >>= f)
  Keeps-bind k h w = continue-IsKept (m w).0 w (m w).1 (k w) h

pub Keeps-if :
    {A : Type 0} (b : Bool) (m n : Exec World A) → Keeps m → Keeps n → Keeps (if b then m else n)
Keeps-if true m n k l = k
Keeps-if false m n k l = l

pub Advances-if :
    (s : InstanceState) (b : Bool) (m n : Exec World TransitionResult)
    → Advances s m
    → Advances s n
    → Advances s (if b then m else n)
Advances-if s true m n k l = k
Advances-if s false m n k l = l
