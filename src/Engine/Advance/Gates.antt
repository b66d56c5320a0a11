-- ===== src/Engine/Advance/Gates.antt =====
-- The three validating handlers move along the graph, by what their gates let pass.
use proxmox_manager.Base.{ℕ, String, refl, Option, inl, inr, Bool-cases, ◌==◌, count_where, Result}
use proxmox_manager.Domain.{
  CheckpointData, InstanceState, ValidationResult, RunType, validating_egress, waiting_guest,
  applying_workload,
}
use proxmox_manager.Store.{Db}
use proxmox_manager.Ipam
use proxmox_manager.Engine.World.{Outside, World, TransitionContext, TransitionResult}
use proxmox_manager.Engine.Evidence.{create_run}
use proxmox_manager.Engine.Validating.{
  Settings, validating_identity_handler, validating_egress_handler,
}
use proxmox_manager.Engine.Workload.{WorkloadAdapter, applying_workload_handler}
use proxmox_manager.Engine.Gate.{
  set_aside, EgressGate, unbound, unread, passed, refused, validating_egress_handler_lem,
}
use proxmox_manager.Engine.Gate.Identity
use proxmox_manager.Engine.Gate.Identity.{IdentityGate, validating_identity_handler_lem}
use proxmox_manager.Engine.Workload.Ready
use proxmox_manager.Engine.Workload.Ready.{ReadyGate, applying_workload_handler_lem}
use proxmox_manager.Engine.Advance.{
  IsKept, IsKept-refl, IsKept-eq, Neutral, Next, Advances, identify, refuse_identity, prove,
  refuse_egress, serve, refuse_workload,
}

pub mark_quarantined-IsKept : (k : ℕ) (db : Db) → IsKept db (Ipam.mark_quarantined k db).1
unfolding Ipam.mark_quarantined Ipam.update_required
mark_quarantined-IsKept k db =
    elim (Bool-cases (count_where (Ipam.quarantinable k) db.allocations == 0)) [
      | inl e ↦ rw e (IsKept-refl db)
      | inr e ↦ rw e (IsKept-eq db _ refl refl)
    ]

set_aside-IsKept : (cp : CheckpointData) (w : World) → IsKept w.db (set_aside cp w).db
set_aside-IsKept cp w = elim (Bool-cases (cp.ip_allocation_id == 0)) [
  | inl e ↦ rw e (IsKept-refl w.db)
  | inr e ↦ rw e (mark_quarantined-IsKept cp.ip_allocation_id w.db)
]

run-Neutral : (i j : ℕ) (t : RunType) (r : ValidationResult) → Neutral (create_run i j t r)
unfolding create_run
run-Neutral i j t r db = (refl, refl)

abbrev Along : InstanceState → World → Result TransitionResult × World → Type 0
Along s w out = IsKept w.db out.1.db × Next s out.0

module _ (outside : Outside) (settings : Settings) (t : TransitionContext) where
  EgressGate-Along :
      (w : World) (out : Result TransitionResult × World)
      → EgressGate outside settings t w out
      → Along validating_egress w out
  EgressGate-Along w out (unbound _) = (IsKept-refl w.db, tt)
  EgressGate-Along w out (unread e _) = (IsKept-refl w.db, tt)
  EgressGate-Along w out (passed _ _ _) = (IsKept-refl w.db, (prove, run-Neutral _ _ _ _))
  EgressGate-Along w out (refused _ _ _) =
      (set_aside-IsKept t.job.checkpoint_data w, (refuse_egress, run-Neutral _ _ _ _))

  pub validating_egress_handler-Advances :
      Advances validating_egress (validating_egress_handler outside settings t)
  validating_egress_handler-Advances w =
      EgressGate-Along w _ (validating_egress_handler_lem outside settings t w)

  IdentityGate-Along :
      (w : World) (out : Result TransitionResult × World)
      → IdentityGate outside settings t w out
      → Along waiting_guest w out
  IdentityGate-Along w out (Identity.unplaced _) = (IsKept-refl w.db, tt)
  IdentityGate-Along w out (Identity.unread _ _) = (IsKept-refl w.db, tt)
  IdentityGate-Along w out (Identity.no_address _) = (IsKept-refl w.db, tt)
  IdentityGate-Along w out (Identity.no_segment _ _) = (IsKept-refl w.db, tt)
  IdentityGate-Along w out (Identity.passed _ _ _ _ _ _ _) =
      (IsKept-refl w.db, (identify, λ db. (refl, refl)))
  IdentityGate-Along w out (Identity.refused _ _ _ _ _ _ _) =
      (set_aside-IsKept t.job.checkpoint_data w, (refuse_identity, λ db. (refl, refl)))

  pub validating_identity_handler-Advances :
      Advances waiting_guest (validating_identity_handler outside settings t)
  validating_identity_handler-Advances w =
      IdentityGate-Along w _ (validating_identity_handler_lem outside settings t w)

module _ (outside : Outside) (t : TransitionContext) (adapters : String → Option WorkloadAdapter)
    (default : String) (polls : ℕ) where
  ReadyGate-Along :
      (w : World) (out : Result TransitionResult × World)
      → ReadyGate outside t adapters default polls w out
      → Along applying_workload w out
  ReadyGate-Along w out (Ready.unplaced _) = (IsKept-refl w.db, tt)
  ReadyGate-Along w out (Ready.unknown_adapter _ _ _) = (IsKept-refl w.db, tt)
  ReadyGate-Along w out (Ready.passed _ _ _ _ _ _) =
      (IsKept-refl w.db, (serve, run-Neutral _ _ _ _))
  ReadyGate-Along w out (Ready.refused _ _ _ _ _ _) =
      (set_aside-IsKept t.job.checkpoint_data w, (refuse_workload, run-Neutral _ _ _ _))

  pub applying_workload_handler-Advances :
      Advances applying_workload (applying_workload_handler outside adapters default polls t)
  applying_workload_handler-Advances w =
      ReadyGate-Along w _ (applying_workload_handler_lem outside t adapters default polls w)
