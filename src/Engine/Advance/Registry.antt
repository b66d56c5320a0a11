-- ===== src/Engine/Advance/Registry.antt =====
-- cmd/worker/main.go, wireEngine: the nine handlers by the state they are registered for. The configuration's values that a handler reads are the fields of a
-- record.
use proxmox_manager.Base.{ℕ, String, ◌≡◌, Option, none, some, subst}
use mathlib.Core.Option.{some-injective}
use proxmox_manager.Domain.{VmInstance, ProvisioningJob, InstanceState}
use proxmox_manager.Engine.World.{Outside, Handler}
use proxmox_manager.Engine.Step.{context}
use proxmox_manager.Engine.Provision.{
  requested_handler, reserving_handler, cloning_handler, configuring_handler,
}
use proxmox_manager.Engine.Network.{network_binding_handler, booting_handler}
use proxmox_manager.Engine.Validating.{
  Settings, validating_identity_handler, validating_egress_handler,
}
use proxmox_manager.Engine.Workload.{WorkloadAdapter, applying_workload_handler}
use proxmox_manager.Engine.Advance.{Advances}
use proxmox_manager.Engine.Advance.Handlers.{
  requested_handler-Advances, reserving_handler-Advances, cloning_handler-Advances,
  configuring_handler-Advances, network_binding_handler-Advances, booting_handler-Advances,
}
use proxmox_manager.Engine.Advance.Gates.{
  validating_egress_handler-Advances, validating_identity_handler-Advances,
  applying_workload_handler-Advances,
}

pub record Wiring : Type 0 where
  pub outside : Outside
  pub segment_id : ℕ
  pub reservation_ttl : ℕ
  pub settings : Settings
  pub adapters : String → Option WorkloadAdapter
  pub health_polls : ℕ

-- the identity handler stands at WAITING_GUEST
unfoldable pub wire_engine : Wiring → InstanceState → Option Handler
wire_engine c InstanceState.requested = some requested_handler
wire_engine c InstanceState.reserving =
    some (reserving_handler c.outside c.segment_id c.reservation_ttl)
wire_engine c InstanceState.cloning = some (cloning_handler c.outside)
wire_engine c InstanceState.configuring = some (configuring_handler c.outside)
wire_engine c InstanceState.network_binding = some (network_binding_handler c.outside)
wire_engine c InstanceState.booting = some (booting_handler c.outside)
wire_engine c InstanceState.waiting_guest = some (validating_identity_handler c.outside c.settings)
wire_engine c InstanceState.validating_egress =
    some (validating_egress_handler c.outside c.settings)
wire_engine c InstanceState.applying_workload =
    some (applying_workload_handler c.outside c.adapters "noop" c.health_polls)
wire_engine c _ = none

pub wired-Advances :
    (c : Wiring) (inst : VmInstance) (job : ProvisioningJob) (x : InstanceState) (h : Handler)
    → wire_engine c x ≡ some h
    → Advances x (h (context inst job))
unfolding wire_engine
wired-Advances c inst job x h e = on x e
  where
    moves :
        (x : InstanceState) (g : Handler)
        → Advances x (g (context inst job))
        → some g ≡ some h
        → Advances x (h (context inst job))
    moves x g k e = subst (λ h. Advances x (h (context inst job))) (some-injective g h e) k

    on : (x : InstanceState) → wire_engine c x ≡ some h → Advances x (h (context inst job))
    on InstanceState.requested e = moves _ _ (requested_handler-Advances c.outside inst job) e
    on InstanceState.reserving e =
        moves _ _ (reserving_handler-Advances c.outside inst job c.segment_id c.reservation_ttl) e
    on InstanceState.cloning e = moves _ _ (cloning_handler-Advances c.outside inst job) e
    on InstanceState.configuring e = moves _ _ (configuring_handler-Advances c.outside inst job) e
    on InstanceState.network_binding e =
        moves _ _ (network_binding_handler-Advances c.outside inst job) e
    on InstanceState.booting e = moves _ _ (booting_handler-Advances c.outside inst job) e
    on InstanceState.waiting_guest e =
        moves _ _ (validating_identity_handler-Advances c.outside c.settings (context inst job)) e
    on InstanceState.validating_egress e =
        moves _ _ (validating_egress_handler-Advances c.outside c.settings (context inst job)) e
    on InstanceState.applying_workload e =
        moves _ _
          (applying_workload_handler-Advances c.outside (context inst job) c.adapters "noop"
            c.health_polls)
          e
    on InstanceState.validating_identity e = cc
    on InstanceState.ready e = cc
    on InstanceState.retry_wait e = cc
    on InstanceState.degraded e = cc
    on InstanceState.quarantined e = cc
    on InstanceState.rolling_back e = cc
    on InstanceState.failed e = cc
    on InstanceState.draining e = cc
    on InstanceState.decommissioning e = cc
    on InstanceState.releasing_resources e = cc
    on InstanceState.retired e = cc
