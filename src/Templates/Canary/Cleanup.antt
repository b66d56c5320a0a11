-- ===== src/Templates/Canary/Cleanup.antt =====
-- Validate of internal/template/canary.go ends, and its canary is stopped and removed.
use proxmox_manager.Base.{ℕ, ◌*◌, String, true, none, some, [], ◌∷◌, ◌≡◌, ◌∙◌, ap, refl}
use proxmox_manager.Proxmox.Session.{
  Method, get, post, action_path, vm_path, clone_path, next_id_path, Request, Cluster, Net, Got,
  got, failed, spinning, Session, changes, lift, continue,
}
use proxmox_manager.Proxmox.Client.{do_request, request_of}
use proxmox_manager.Proxmox.Messages.{
  VmRef, TaskRef, TaskStatus, number_or_text, number_in_text, bool_param, clone_params, second,
  parse_flexible_int,
}
use proxmox_manager.Proxmox.Adapter.{allocate_next_vmid, clone, stop, delete_vm}
use proxmox_manager.Proxmox.Waits.{Ends, wait_for_task_lem, do_request-Reads}
use proxmox_manager.Proxmox.Effects.{
  Broken, clone-Does, status_action-Does, delete_vm-Does, or_failed-Ends, do_request-Ends,
  continue-Still,
}
use proxmox_manager.Templates.Canary.Ending.{try_canary-Ends}
use proxmox_manager.Templates.Canary.{
  CanaryOptions, CanaryTools, CanaryRun, clean_up, wait_if_started, deferring, try_canary, validate,
  canary_clone,
}

abbrev pub stop_request : VmRef → Request
stop_request ref = request_of post (action_path ref.node ref.vmid "stop") (some [])

abbrev pub delete_request : VmRef → Request
delete_request ref =
    request_of Method.delete (vm_path ref.node ref.vmid) (some (("purge", bool_param true) ∷ []))

module _ (c : Cluster) (tools : CanaryTools) where
  wait_if_started-changes :
      (r : Got TaskRef) (net : Net)
      → changes (wait_if_started c tools r net).1.requests ≡ changes net.requests
  wait_if_started-changes (got task) net =
      (wait_for_task_lem c task (30 * second) net).reads.unchanged
  wait_if_started-changes (failed e) net = refl
  wait_if_started-changes spinning net = refl

  after_wait :
      {B : Type 0} (r : Got TaskRef) (f : Session B) (net : Net)
      → continue (wait_if_started c tools r net).0 (λ _. f) (wait_if_started c tools r net).1
        ≡ f (wait_if_started c tools r net).1
  after_wait (got task) f net = refl
  after_wait (failed e) f net = refl
  after_wait spinning f net = refl

  pub clean_up-changes :
      (ref : VmRef) (net : Net)
      → changes (clean_up c tools ref net).1.requests
        ≡ delete_request ref ∷ stop_request ref ∷ changes net.requests
  unfolding clean_up stop
  clean_up-changes ref net =
      let rest : Session (Got TaskStatus) =
        λ n. wait_if_started c tools (delete_vm c ref true n).0 (delete_vm c ref true n).1 in
      let stopped = stop c ref net in
      let waited = (wait_if_started c tools stopped.0 stopped.1).1 in
      let deleted = delete_vm c ref true waited in
      rw (after_wait stopped.0 rest stopped.1) (
        wait_if_started-changes deleted.0 deleted.1
        ∙ ((delete_vm-Does c ref true waited).change
            ∙ ap (λ rs. delete_request ref ∷ rs)
                (wait_if_started-changes stopped.0 stopped.1
                  ∙ (status_action-Does c "stop" ref net).change)))

  parse_flexible_int-Ends : (raw : String) → Ends (parse_flexible_int c.codec raw)
  unfolding parse_flexible_int
  parse_flexible_int-Ends raw =
      elim (c.codec.number raw) as (λ o. Ends (number_or_text c.codec raw o)) [
        | some n ↦ tt
        | none ↦ elim (c.codec.text raw) as (λ o. Ends (number_in_text c.codec o)) [
          | none ↦ tt
          | some t ↦ or_failed-Ends (c.codec.atoi t)
        ]
      ]

  allocate-Reads :
      (net : Net)
      → Ends (allocate_next_vmid c net).0
        × (changes (allocate_next_vmid c net).1.requests ≡ changes net.requests)
  unfolding allocate_next_vmid
  allocate-Reads net =
      let asked = do_request c get next_id_path none net in
      let still =
        continue-Still asked.0 (λ raw. lift (parse_flexible_int c.codec raw)) asked.1
          (do_request-Ends c get next_id_path none net)
          (λ raw. (parse_flexible_int-Ends raw, refl)) in
      (still.0, rw still.1 (do_request-Reads c next_id_path none net).unchanged)

  module _ (opts : CanaryOptions) where
    abbrev pub canary_ref : ℕ → VmRef
    canary_ref vmid = record { node = opts.node; vmid = vmid }

    -- How a validation ends, by what came of the allocation of a number.
    abbrev pub CleanedUp : Got ℕ × Net → Net → Got CanaryRun × Net → Type 0
    CleanedUp (got vmid, allocated) net result =
        let tried = try_canary c tools opts net.now vmid allocated in
        Ends result.0
        × (result.0 ≡ tried.0)
        × (changes result.1.requests
            ≡ delete_request (canary_ref vmid)
              ∷ stop_request (canary_ref vmid)
              ∷ changes tried.1.requests)
    CleanedUp (failed e, allocated) net result =
        (result.0 ≡ failed e) × (changes result.1.requests ≡ changes net.requests)
    CleanedUp (spinning, allocated) net result = ⊥

    cleaned :
        (alloc : Got ℕ × Net) (net : Net)
        → Ends alloc.0
        → changes alloc.1.requests ≡ changes net.requests
        → CleanedUp alloc net (
            continue alloc.0
              (λ vmid.
                deferring
                  (clean_up c tools (canary_ref vmid))
                  (try_canary c tools opts net.now vmid))
              alloc.1)
    cleaned (got vmid, allocated) net h e = (
      try_canary-Ends c tools opts net.now vmid allocated,
      refl,
      clean_up-changes (canary_ref vmid) (try_canary c tools opts net.now vmid allocated).1,
    )
    cleaned (failed e', allocated) net h e = (refl, e)
    cleaned (spinning, allocated) net h e = absurd h

    -- Validate of a template ends, whatever the cluster answers. Where no number could be allocated it
    -- fails and changes nothing. Otherwise its result is what came of trying the canary, and, whatever
    -- that was, its last two changes are the stop and the purging deletion of the VM of that number.
    pub validate_lem :
        (net : Net) → CleanedUp (allocate_next_vmid c net) net (validate c tools opts net)
    unfolding validate
    validate_lem net =
        cleaned (allocate_next_vmid c net) net (allocate-Reads net).0 (allocate-Reads net).1

    refused :
        (cloned : Got TaskRef × Net) (f : TaskRef → Session CanaryRun)
        → Broken cloned.0
        → (continue cloned.0 f cloned.1).1 ≡ cloned.1
    refused (got t, net) f h = absurd h
    refused (failed _, net) f h = refl
    refused (spinning, net) f h = absurd h

    -- Where a number was allocated and Proxmox refuses to clone to it, with the error that the number is
    -- another VM's by now or any other, Validate stops that VM and deletes it all the same: these
    -- three are its changes, in this order.
    pub validate-removes_other :
        (net : Net) (vmid : ℕ) (allocated : Net)
        → allocate_next_vmid c net ≡ (got vmid, allocated)
        → Broken (clone c (canary_clone c tools opts vmid) allocated).0
        → changes (validate c tools opts net).1.requests
          ≡ delete_request (canary_ref vmid)
            ∷ stop_request (canary_ref vmid)
            ∷ request_of post
                (clone_path opts.node opts.source_vmid)
                (some (clone_params (canary_clone c tools opts vmid)))
            ∷ changes net.requests
    unfolding try_canary
    validate-removes_other net vmid allocated e h =
        let ended = rw e at (validate_lem net) in
        let quiet = rw e at ((allocate-Reads net).1) in
        (let cloned = clone c (canary_clone c tools opts vmid) allocated in
          let asked =
            request_of post (clone_path opts.node opts.source_vmid)
              (some (clone_params (canary_clone c tools opts vmid))) in
          ended.2
          ∙ ap (λ rs. delete_request (canary_ref vmid) ∷ stop_request (canary_ref vmid) ∷ rs)
              (ap (λ (n : Net). changes n.requests) (refused cloned _ h)
                ∙ ((clone-Does c (canary_clone c tools opts vmid) allocated).change
                    ∙ ap (λ rs. asked ∷ rs) quiet)))
