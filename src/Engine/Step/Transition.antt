-- ===== src/Engine/Step/Transition.antt =====
-- What one step does: a transition with its checkpoint, evidence and audit event, or nothing.
use proxmox_manager.Base.{
  ℕ, ◌≡◌, refl, ap, ◌⊎◌, inl, inr, none, some, Option, List, [], ◌∷◌, ◌++◌, Bool-cases,
  Option-cases, Result-cases, Result, ok, err, Error, not_found, invalid_transition, ◌==◌, find,
  count_where, update_where,
}
use proxmox_manager.Domain.{
  VmInstance, ProvisioningJob, InstanceState, CheckpointData, state_transition,
}
use proxmox_manager.Store.{Db, with_tx}
use proxmox_manager.Jobs
use proxmox_manager.Instances
use proxmox_manager.Engine.World.{World, TransitionResult, Placement, Handler}
use proxmox_manager.Engine.Step.{step, persist, place, context, append_audit}

abbrev pub placed_rows : ℕ → Option Placement → List VmInstance → List VmInstance
placed_rows id none rows = rows
placed_rows id (some p) rows =
    update_where (Instances.has_id id) (Instances.placed p.cluster_id p.node p.vmid) rows

-- the rows of the instance and of the job after the transition
abbrev pub written : VmInstance → ProvisioningJob → TransitionResult → Db → Db
written inst job result db = record db {
  instances =
      placed_rows inst.id result.pve_placement (
        update_where (Instances.has_id inst.id) (Instances.in_state result.next_state)
          db.instances);
  jobs =
      update_where (Jobs.has_id job.id) (Jobs.checkpointed result.next_state result.checkpoint_data)
        db.jobs;
}

abbrev pub audited : VmInstance → TransitionResult → Db → Db
audited inst result db = record db {
  audit =
      db.audit
      ++ record { resource_id = inst.id; action = state_transition inst.state result.next_state }
        ∷ [];
}

abbrev pub Persisted :
    VmInstance → ProvisioningJob → TransitionResult → Db → Result (Unit {0}) × Db → Type 0
Persisted inst job result db out =
    ((e : Error) × (out ≡ (err e, db)))
    ⊎ ((db' : Db) × (result.persist_evidence (written inst job result db) ≡ (ok tt, db'))
        × (out ≡ (ok tt, audited inst result db')))

place_lem :
    (id : ℕ) (p : Option Placement) (db : Db)
    → (place id p db ≡ (err not_found, db))
      ⊎ (place id p db ≡ (ok tt, record db { instances = placed_rows id p db.instances }))
unfolding Instances.set_pve_placement Instances.update_required
place_lem id none db = inr refl
place_lem id (some p) db = elim (Bool-cases (count_where (Instances.has_id id) db.instances == 0)) [
  | inl t ↦ inl (rw t refl)
  | inr t ↦ inr (rw t refl)
]

pub update_checkpoint_lem :
    (k : ℕ) (s : InstanceState) (cp : CheckpointData) (db : Db)
    → (Jobs.update_checkpoint k s cp db ≡ (err not_found, db))
      ⊎ (Jobs.update_checkpoint k s cp db ≡ (
        ok tt,
        record db { jobs = update_where (Jobs.has_id k) (Jobs.checkpointed s cp) db.jobs },
      ))
unfolding Jobs.update_checkpoint Jobs.update_required
update_checkpoint_lem k s cp db = elim (Bool-cases (count_where (Jobs.has_id k) db.jobs == 0)) [
  | inl t ↦ inl (rw t refl)
  | inr t ↦ inr (rw t refl)
]

pub update_state_lem :
    (k : ℕ) (s : InstanceState) (db : Db)
    → (Instances.update_state k s db ≡ (err not_found, db))
      ⊎ (Instances.update_state k s db ≡ (
        ok tt,
        record db {
          instances = update_where (Instances.has_id k) (Instances.in_state s) db.instances;
        },
      ))
unfolding Instances.update_state Instances.update_required
update_state_lem k s db = elim (Bool-cases (count_where (Instances.has_id k) db.instances == 0)) [
  | inl t ↦ inl (rw t refl)
  | inr t ↦ inr (rw t refl)
]

persist_lem :
    (inst : VmInstance) (job : ProvisioningJob) (result : TransitionResult) (db : Db)
    → Persisted inst job result db (persist inst job result db)
unfolding persist with_tx append_audit
persist_lem inst job result db =
    let moved : Db = record db {
      instances =
          update_where (Instances.has_id inst.id) (Instances.in_state result.next_state)
            db.instances;
    } in
    let placed : Db = record moved {
      instances = placed_rows inst.id result.pve_placement moved.instances;
    } in
    let out : Result (Unit {0}) × Db = result.persist_evidence (written inst job result db) in
    elim (update_state_lem inst.id result.next_state db) [
      | inl a ↦ inl (not_found, rw a refl)
      | inr a ↦ elim (place_lem inst.id result.pve_placement moved) [
        | inl p ↦ inl (not_found, rw a (rw p refl))
        | inr p ↦
            elim (update_checkpoint_lem job.id result.next_state result.checkpoint_data placed) [
              | inl c ↦ inl (not_found, rw a (rw p (rw c refl)))
              | inr c ↦ elim (Result-cases out.0) [
                | inl (_, r) ↦ inr (out.1, ap (λ x. (x, out.1)) r, rw a (rw p (rw c (rw r refl))))
                | inr (e, r) ↦ inl (e, rw a (rw p (rw c (rw r refl))))
              ]
            ]
      ]
    ]

-- What a step does, by what it meets.
pub data Stepped (registry : InstanceState → Option Handler) (job : ProvisioningJob) (w : World)
    : Result InstanceState × World → Type 0 where
  no_instance :
      find (Instances.has_id job.instance_id) w.db.instances ≡ none
      → Stepped registry job w (err not_found, w)
  no_handler :
      (inst : VmInstance)
      → find (Instances.has_id job.instance_id) w.db.instances ≡ some inst
      → registry inst.state ≡ none
      → Stepped registry job w (err invalid_transition, w)
  handler_failed :
      (inst : VmInstance) (handler : Handler) (e : Error) (w' : World)
      → find (Instances.has_id job.instance_id) w.db.instances ≡ some inst
      → registry inst.state ≡ some handler
      → handler (context inst job) w ≡ (err e, w')
      → Stepped registry job w (err e, w')
  not_persisted :
      (inst : VmInstance) (handler : Handler) (result : TransitionResult) (e : Error) (w' : World)
      → find (Instances.has_id job.instance_id) w.db.instances ≡ some inst
      → registry inst.state ≡ some handler
      → handler (context inst job) w ≡ (ok result, w')
      → Stepped registry job w (err e, w')
  advanced :
      (inst : VmInstance) (handler : Handler) (result : TransitionResult) (w' : World) (db' : Db)
      → find (Instances.has_id job.instance_id) w.db.instances ≡ some inst
      → registry inst.state ≡ some handler
      → handler (context inst job) w ≡ (ok result, w')
      → result.persist_evidence (written inst job result w'.db) ≡ (ok tt, db')
      → Stepped registry job w (ok result.next_state, record w' { db = audited inst result db' })

pub step_lem :
    (registry : InstanceState → Option Handler) (job : ProvisioningJob) (w : World)
    → Stepped registry job w (step registry job w)
unfolding step Instances.get
step_lem registry job w =
    elim (Option-cases (find (Instances.has_id job.instance_id) w.db.instances)) [
      | inl i ↦ rw i (no_instance i)
      | inr (inst, i) ↦ elim (Option-cases (registry inst.state)) [
        | inl h ↦ rw i (rw h (no_handler inst i h))
        | inr (handler, h) ↦
            let w' : World = (handler (context inst job) w).1 in
            elim (Result-cases (handler (context inst job) w).0) [
              | inr (e, r) ↦
                  rw i (rw h (rw r (handler_failed inst handler e w' i h (ap (λ x. (x, w')) r))))
              | inl (result, r) ↦ elim (persist_lem inst job result w'.db) [
                | inl (e, p) ↦ rw i (
                    rw h (
                      rw r
                        (rw p (not_persisted inst handler result e w' i h (ap (λ x. (x, w')) r)))))
                | inr (db', ev, p) ↦ rw i (
                    rw h (
                      rw r
                        (rw p (advanced inst handler result w' db' i h (ap (λ x. (x, w')) r) ev))))
              ]
            ]
      ]
    ]
