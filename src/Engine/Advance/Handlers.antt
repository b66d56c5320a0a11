-- ===== src/Engine/Advance/Handlers.antt =====
-- Each of the nine handlers moves along the graph.
use text.Mathlib.Text.{◌==◌ as str_eq}
use proxmox_manager.Base.{
  ℕ, refl, Bool, true, false, ◌&&◌, not, ◌==◌, inl, inr, Option-cases, find, Exec, Error, guard,
  failure, pure, ◌>>=◌, ◌>>◌, invalid_transition,
}
use proxmox_manager.Domain.{
  VmInstance, ProvisioningJob, InstanceState, CheckpointData, is_usable, network_binding, booting,
  waiting_guest,
}
use proxmox_manager.Ipam
use proxmox_manager.Ipam.Reserve.{reserve-writes}
use proxmox_manager.Templates
use proxmox_manager.Engine.World.{
  Outside, World, TransitionResult, ask, on_db, wait_for_task, get_vm, get_config,
  cloning_checkpoint, configuring_checkpoint, reserving_checkpoint, next_vmid, moved,
  activate_mapping, start,
}
use proxmox_manager.Engine.Step.{context}
use proxmox_manager.Engine.Provision.{
  requested_handler, reserving_handler, clone_once, accept_clone, cloning_handler, await_task,
  configure_once, read_mac, configuring_handler,
}
use proxmox_manager.Engine.Network.{
  client_once, mapping_once, network_binding_handler, start_once, booting_handler,
}
use proxmox_manager.Engine.Advance.{
  ◌⟶◌, accept, reserve, clone as clone_edge, configure as configure_edge, bind, boot, IsKept-refl,
  IsKept-eq, IsKept-checkpoint, Keeps, Advances, Keeps-ask, Advances-bind, Keeps-bind, Keeps-if,
  Advances-if,
}

Keeps-guard : (b : Bool) (e : Error) → Keeps (guard b e)
Keeps-guard true e w = IsKept-refl w.db
Keeps-guard false e w = IsKept-refl w.db

Keeps-template : (id : ℕ) → Keeps (on_db (Templates.get id))
unfolding Templates.get
Keeps-template id w = elim (Option-cases (find (Templates.has_id id) w.db.templates)) [
  | inl e ↦ rw e (IsKept-refl w.db)
  | inr (_, e) ↦ rw e (IsKept-refl w.db)
]

Advances-pure :
    (s s' : InstanceState) (cp : CheckpointData) → s ⟶ s' → Advances s (pure (moved s' cp))
Advances-pure s s' cp e w = (IsKept-refl w.db, (e, λ db. (refl, refl)))

pub Keeps-pure : {A : Type 0} (a : A) → Keeps (pure a)
Keeps-pure a w = IsKept-refl w.db

Keeps-reserve : (segment id ttl : ℕ) → Keeps (on_db (Ipam.reserve_next_free segment id ttl))
Keeps-reserve segment id ttl w = elim (reserve-writes segment id ttl w.db) [
  | inl e ↦ rw e (IsKept-refl w.db)
  | inr (_, _, e) ↦ rw e (IsKept-eq w.db _ refl refl)
]

module _ (outside : Outside) (inst : VmInstance) (job : ProvisioningJob) where
  Keeps-save : (cp : CheckpointData) → Keeps ((context inst job).save_checkpoint cp)
  Keeps-save cp w = IsKept-checkpoint job.id inst.state cp w.db

  -- an external call whose reference is saved before anything else
  Keeps-saved :
      (m : Exec World ℕ) (f : ℕ → CheckpointData)
      → Keeps m
      → Keeps (do id ← m; (context inst job).save_checkpoint (f id); pure (f id))
  Keeps-saved m f k = Keeps-bind m _ k (λ id.
      Keeps-bind ((context inst job).save_checkpoint (f id)) _ (Keeps-save (f id))
        (λ _. Keeps-pure (f id)))

  abbrev placed : Exec World (Unit {0})
  placed = guard (not (job.checkpoint_data.vmid == 0)) failure

  -- a handler of a VM that is in the checkpoint
  Advances-placed :
      (s : InstanceState) (m : Exec World TransitionResult)
      → Advances s m
      → Advances s (placed >> m)
  Advances-placed s m h =
      Advances-bind s placed (λ _. m) (Keeps-guard (not (job.checkpoint_data.vmid == 0)) failure)
        (λ _. h)

  Keeps-await : (node upid : ℕ) → Keeps (await_task outside node upid)
  unfolding await_task
  Keeps-await node upid =
      Keeps-bind (ask outside.status (wait_for_task node upid)) _ (Keeps-ask _ _)
        (λ success. Keeps-guard success failure)

  Keeps-mac : (cp : CheckpointData) → Keeps (read_mac outside cp)
  unfolding read_mac
  Keeps-mac cp =
      Keeps-if (str_eq cp.nic0_mac "") _ _
        (Keeps-bind (ask outside.mac (get_config cp.node cp.vmid)) _ (Keeps-ask _ _)
          (λ mac. Keeps-pure (record cp { nic0_mac = mac })))
        (Keeps-pure cp)

  pub requested_handler-Advances :
      Advances InstanceState.requested (requested_handler (context inst job))
  unfolding requested_handler
  requested_handler-Advances =
      Advances-bind _ (on_db (Templates.get inst.template_id)) _ (Keeps-template inst.template_id)
        (λ tpl.
          Advances-bind _ (guard (is_usable tpl) invalid_transition) _
            (Keeps-guard (is_usable tpl) invalid_transition)
            (λ _. Advances-pure _ InstanceState.reserving job.checkpoint_data accept))

  pub reserving_handler-Advances :
      (segment ttl : ℕ)
      → Advances InstanceState.reserving (reserving_handler outside segment ttl (context inst job))
  unfolding reserving_handler
  reserving_handler-Advances segment ttl =
      Advances-if _
        (not (job.checkpoint_data.ip_allocation_id == 0) && not (job.checkpoint_data.vmid == 0)) _ _
        (Advances-pure _ InstanceState.cloning (reserving_checkpoint job.checkpoint_data) reserve)
        (Advances-bind _ (on_db (Templates.get inst.template_id)) _
          (Keeps-template inst.template_id)
          (λ tpl.
            Advances-bind _ (on_db (Ipam.reserve_next_free segment inst.id ttl)) _
              (Keeps-reserve segment inst.id ttl)
              (λ alloc.
                Advances-bind _ (ask outside.vmid next_vmid) _ (Keeps-ask _ _)
                  (λ vmid w. (IsKept-refl w.db, (reserve, λ db. (refl, refl)))))))

  pub cloning_handler-Advances :
      Advances InstanceState.cloning (cloning_handler outside (context inst job))
  unfolding cloning_handler clone_once accept_clone
  cloning_handler-Advances = Advances-placed _ _ (
      Advances-bind _ (on_db (Templates.get inst.template_id)) _ (Keeps-template inst.template_id)
        (λ tpl.
          Advances-bind _
            (clone_once outside (context inst job) tpl (cloning_checkpoint job.checkpoint_data)) _
            (Keeps-if (job.checkpoint_data.clone_task_upid == 0) _ _
              (Keeps-saved _ _ (Keeps-ask _ _))
              (Keeps-pure (cloning_checkpoint job.checkpoint_data)))
            (λ cp.
              Advances-bind _ (await_task outside cp.node cp.clone_task_upid) _
                (Keeps-await cp.node cp.clone_task_upid)
                (λ _.
                  Advances-bind _ (ask outside.running (get_vm cp.node cp.vmid)) _ (Keeps-ask _ _)
                    (λ _ w. (IsKept-refl w.db, (clone_edge, λ db. (refl, refl))))))))

  pub configuring_handler-Advances :
      Advances InstanceState.configuring (configuring_handler outside (context inst job))
  unfolding configuring_handler configure_once read_mac
  configuring_handler-Advances =
      let cp : CheckpointData = configuring_checkpoint job.checkpoint_data in
      Advances-placed _ _ (
        Advances-bind _ (configure_once outside (context inst job) cp) _
          (Keeps-if (cp.config_task_upid == 0) _ _ (Keeps-saved _ _ (Keeps-ask _ _))
            (Keeps-pure cp))
          (λ cp.
            Advances-bind _ (await_task outside cp.node cp.config_task_upid) _
              (Keeps-await cp.node cp.config_task_upid)
              (λ _.
                Advances-bind _ (read_mac outside cp) _ (Keeps-mac cp)
                  (λ cp'. Advances-pure _ network_binding cp' configure_edge))))

  pub network_binding_handler-Advances :
      Advances network_binding (network_binding_handler outside (context inst job))
  unfolding network_binding_handler client_once mapping_once
  network_binding_handler-Advances =
      let cp : CheckpointData = job.checkpoint_data in
      Advances-placed _ _ (
        Advances-bind _ (client_once outside (context inst job) cp) _
          (Keeps-if (cp.pgw_client_id == 0) _ _ (Keeps-saved _ _ (Keeps-ask _ _)) (Keeps-pure cp))
          (λ cp.
            Advances-bind _ (mapping_once outside (context inst job) cp) _
              (Keeps-if (cp.pgw_mapping_id == 0) _ _ (Keeps-saved _ _ (Keeps-ask _ _))
                (Keeps-pure cp))
              (λ cp.
                Advances-bind _ (ask outside.generation (activate_mapping cp.pgw_mapping_id)) _
                  (Keeps-ask _ _) (λ gen w. (IsKept-refl w.db, (bind, λ db. (refl, refl)))))))

  pub booting_handler-Advances : Advances booting (booting_handler outside (context inst job))
  unfolding booting_handler start_once
  booting_handler-Advances =
      let cp : CheckpointData = job.checkpoint_data in
      Advances-placed _ _ (
        Advances-bind _ (ask outside.running (get_vm cp.node cp.vmid)) _ (Keeps-ask _ _) (λ running.
          Advances-bind _ (start_once outside running cp) _
            (Keeps-if running _ _ (Keeps-pure tt) (
              Keeps-bind (ask outside.task (start cp.node cp.vmid)) _ (Keeps-ask _ _)
                (λ upid. Keeps-await cp.node upid)))
            (λ _. Advances-pure _ waiting_guest cp boot)))
