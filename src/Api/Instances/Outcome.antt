-- ===== src/Api/Instances/Outcome.antt =====
-- What the creation of an instance leaves in the database.
use text.Mathlib.Text.{◌==◌ as str_eq}
use text.Mathlib.TextEquality.{eq_iff}
use proxmox_manager.Base.{
  ℕ, String, Bool, Option, List, ◌↔◌, ◌⊎◌, ◌&&◌, ◌||◌, not, is_some, any, any-exists, any-In,
  &&-eq-true, In, failure, ◌≡◌, refl, inl, inr, true, false, none, some, [], ◌∷◌, ◌++◌, find,
  Bool-cases, ◌==◌, ==_iff, if◌then◌else◌, Result, ok, err, not_found, invalid_transition,
}
use proxmox_manager.Domain.{
  VmInstance, ProvisioningJob, JobState, JobOperation, NetworkSegment, Template, requested,
  is_usable,
}
use proxmox_manager.Store.{Db}
use proxmox_manager.Jobs
use proxmox_manager.Instances
use proxmox_manager.Templates
use proxmox_manager.Api.{Resources, Reply}
use proxmox_manager.Api.Instances.{Body, accepted, InstanceCreateRequest}

-- one instance more, in REQUESTED, and one job more, that waits to begin with it; the answer names
-- them
pub record IsProvisioned (operation : JobOperation) (db db' : Db) (inst : VmInstance)
    (reply : Reply Body) : Type 0 where
  pub job : ProvisioningJob
  pub instances : db'.instances ≡ db.instances ++ inst ∷ []
  pub jobs : db'.jobs ≡ db.jobs ++ job ∷ []
  pub inst_state : inst.state ≡ requested
  pub job_state : job.state ≡ JobState.queued
  pub checkpoint : job.checkpoint ≡ requested
  pub operation_of : job.operation ≡ operation
  pub instance_of : job.instance_id ≡ inst.id
  pub answer : reply ≡ record { status = 202; body = accepted inst.id job.id requested }

-- the name has an instance of the generation, or the host name one that is not retired
abbrev pub IsTaken : String → String → ℕ → List VmInstance → Type 0
IsTaken name hostname generation rows =
    (i : VmInstance) × In i rows
    × (((i.logical_name ≡ name) × (i.generation ≡ generation))
        ⊎ ((i.hostname ≡ hostname) × (i.retired_at ≡ none)))

pub not_retired : (o : Option ℕ) → (not (is_some o) ≡ true) ↔ (o ≡ none)
not_retired none = (λ _. refl, λ _. refl)
not_retired (some t) = (λ h. cc, λ h. cc)

pub collides-IsTaken :
    (name hostname : String) (generation : ℕ) (rows : List VmInstance)
    → any (Instances.collides name hostname generation) rows ≡ true
    → IsTaken name hostname generation rows
unfolding Instances.collides
collides-IsTaken name hostname generation rows h =
    let (i, m, e) = any-exists (Instances.collides name hostname generation) rows h in
    (
      i,
      m,
      elim (Bool-cases (str_eq i.logical_name name && i.generation == generation)) [
        | inl c ↦
            let (same, next) =
              &&-eq-true (str_eq i.logical_name name) (i.generation == generation) c in
            inl ((eq_iff i.logical_name name).0 same, (==_iff i.generation generation).0 next)
        | inr c ↦
            let (same, live) =
              &&-eq-true (str_eq i.hostname hostname) (not (is_some i.retired_at)) (rw c at e) in
            inr ((eq_iff i.hostname hostname).0 same, (not_retired i.retired_at).0 live)
      ],
    )

pub IsTaken-collides :
    (name hostname : String) (generation : ℕ) (rows : List VmInstance)
    → IsTaken name hostname generation rows
    → any (Instances.collides name hostname generation) rows ≡ true
unfolding Instances.collides
IsTaken-collides name hostname generation rows (i, m, inl (same, next)) =
    any-In (Instances.collides name hostname generation) rows i m
      (rw ((eq_iff i.logical_name name).1 same) (rw ((==_iff i.generation generation).1 next) refl))
IsTaken-collides name hostname generation rows (i, m, inr (same, live)) =
    any-In (Instances.collides name hostname generation) rows i m (
      rw ((eq_iff i.hostname hostname).1 same) (rw ((not_retired i.retired_at).1 live) (or_true _)))
  where
    or_true : (b : Bool) → (b || true) ≡ true
    or_true true = refl
    or_true false = refl

module _ (format : String → ℕ → String) (req : InstanceCreateRequest) (s : Resources) where
  abbrev named : String → String
  named hostname = if str_eq req.logical_name "" then hostname else req.logical_name

  -- What the work of POST /v1/instances does, by what it finds.
  pub data Created : Result (Reply Body) × Resources → Type 0 where
    no_template :
        find (Templates.has_id req.template_id) s.db.templates ≡ none → Created (err not_found, s)
    unusable :
        (tpl : Template)
        → find (Templates.has_id req.template_id) s.db.templates ≡ some tpl
        → is_usable tpl ≡ false
        → Created (err invalid_transition, s)
    no_segment :
        find (λ x. x.id == req.network_segment_id) s.db.segments ≡ none → Created (err not_found, s)
    taken :
        (hostname : String) (after : Resources)
        → after.db ≡ s.db
        → IsTaken (named hostname) hostname 1 s.db.instances
        → Created (err failure, after)
    created :
        (tpl : Template) (segment : NetworkSegment) (inst : VmInstance) (reply : Reply Body)
        (after : Resources)
        → find (Templates.has_id req.template_id) s.db.templates ≡ some tpl
        → is_usable tpl ≡ true
        → find (λ x. x.id == req.network_segment_id) s.db.segments ≡ some segment
        → (¬ IsTaken (named inst.hostname) inst.hostname 1 s.db.instances)
        → IsProvisioned JobOperation.provision s.db after.db inst reply
        → inst.template_id ≡ req.template_id
        → inst.generation ≡ 1
        → inst.logical_name ≡ named inst.hostname
        → Created (ok reply, after)
