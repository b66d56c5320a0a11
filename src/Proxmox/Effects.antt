-- ===== src/Proxmox/Effects.antt =====
-- What each operation of internal/proxmox changes: the requests that are not a GET.
use text.Mathlib.Text.{◌==◌ as str_eq}
use proxmox_manager.Base.{
  Bool, true, false, String, Option, none, some, List, [], ◌∷◌, ◌++◌, ap, ◌≡◌, ◌∙◌, refl, leb,
  if◌then◌else◌,
}
use proxmox_manager.Proxmox.Session.{
  Method, post, Endpoint, action_path, agent_path, vm_path, clone_path, config_path, Params,
  Request, Answer, unreachable, response, Codec, Cluster, Net, Got, got, failed, spinning, pve,
  other, Session, send, changes, or_failed, continue,
}
use proxmox_manager.Proxmox.Client.{do_request, read_answer, request_of}
use proxmox_manager.Proxmox.Messages.{
  VmRef, not_empty, CloneRequest, ConfigureRequest, parse_upid, bool_param, clone_params,
  configure_params, pinged, is_unknown,
}
use proxmox_manager.Proxmox.Adapter.{
  task_on, clone, configure, status_action, delete_vm, guest_ping,
}
use proxmox_manager.Proxmox.Guest.{write_guest_file, file_params, written}
use proxmox_manager.Proxmox.Waits.{Ends}

-- a list of requests on those of before, the last one first
abbrev pub onto : List Request → List Request → List Request
onto [] before = before
onto (r ∷ rs) before = onto rs (r ∷ before)

module _ {A : Type 0} where
  abbrev pub Finished : Got A → Type 0
  Finished (got _) = Unit
  Finished (failed _) = ⊥
  Finished spinning = ⊥

  abbrev pub Broken : Got A → Type 0
  Broken (got _) = ⊥
  Broken (failed _) = Unit
  Broken spinning = ⊥

  -- an operation that ends, and makes one change
  pub record Does (r : Request) (before : Net) (result : Got A × Net) : Type 0 where
    pub ended : Ends result.0
    pub change : changes result.1.requests ≡ r ∷ changes before.requests

  -- the changes of a script on those of before: all of them, or those up to the one that failed
  pub data Ran : List Request → List Request → Got A × Net → Type 0 where
    all_done :
        {before : List Request} {result : Got A × Net}
        → Finished result.0
        → changes result.1.requests ≡ before
        → Ran [] before result
    stopped :
        {r : Request} {rs before : List Request} {result : Got A × Net}
        → Broken result.0
        → changes result.1.requests ≡ r ∷ before
        → Ran (r ∷ rs) before result
    further :
        {r : Request} {rs before : List Request} {result : Got A × Net}
        → Ran rs (r ∷ before) result
        → Ran (r ∷ rs) before result

  pub Ran-last :
      {r : Request} {before : Net} {ch : List Request} (result : Got A × Net)
      → changes before.requests ≡ ch
      → Does r before result
      → Ran (r ∷ []) ch result
  Ran-last {r} (got a, net) e d = further (all_done tt (d.change ∙ ap (λ rs. r ∷ rs) e))
  Ran-last {r} (failed _, net) e d = stopped tt (d.change ∙ ap (λ rs. r ∷ rs) e)
  Ran-last (spinning, net) e d = absurd d.ended

module _ {A B : Type 0} where
  pub continue-Still :
      (r : Got A) (f : A → Session B) (net : Net)
      → Ends r
      → ((a : A) → Ends (f a net).0 × ((f a net).1 ≡ net))
      → Ends (continue r f net).0 × ((continue r f net).1 ≡ net)
  continue-Still (got a) f net h k = k a
  continue-Still (failed e) f net h k = (tt, refl)
  continue-Still spinning f net h k = absurd h

  -- The rule for one script after another.
  pub Ran-bind :
      (rs rest : List Request) {before : List Request} (result : Got A × Net) (f : A → Session B)
      → Ran rs before result
      → ((a : A) (net : Net)
          → changes net.requests ≡ onto rs before
          → Ran rest (onto rs before) (f a net))
      → Ran (rs ++ rest) before (continue result.0 f result.1)
  Ran-bind _ rest (got a, net) f (all_done h e) k = k a net e
  Ran-bind _ rest (failed _, net) f (all_done h e) k = absurd h
  Ran-bind _ rest (spinning, net) f (all_done h e) k = absurd h
  Ran-bind _ rest (got a, net) f (stopped h e) k = absurd h
  Ran-bind _ rest (failed _, net) f (stopped h e) k = stopped tt e
  Ran-bind _ rest (spinning, net) f (stopped h e) k = absurd h
  Ran-bind _ rest result f (further h) k = further (Ran-bind _ rest result f h k)

  -- The rule for a step before a script.
  pub Ran-step :
      {r : Request} (rs : List Request) {before : Net} {ch : List Request} (result : Got A × Net)
      (f : A → Session B)
      → changes before.requests ≡ ch
      → Does r before result
      → ((a : A) (net : Net) → changes net.requests ≡ r ∷ ch → Ran rs (r ∷ ch) (f a net))
      → Ran (r ∷ rs) ch (continue result.0 f result.1)
  Ran-step {r} rs result f e d k = Ran-bind (r ∷ []) rs result f (Ran-last result e d) k

pub or_failed-Ends : {A : Type 0} (o : Option A) → Ends (or_failed o)
or_failed-Ends none = tt
or_failed-Ends (some a) = tt

pub if-Ends : {A : Type 0} (b : Bool) (x y : Got A) → Ends x → Ends y → Ends (if b then x else y)
if-Ends true x y h k = h
if-Ends false x y h k = k

read_answer-Ends : (codec : Codec) (answer : Answer) → Ends (read_answer codec answer)
unfolding read_answer
read_answer-Ends codec unreachable = tt
read_answer-Ends codec (response status raw) =
    if-Ends (leb 300 status) _ (or_failed (codec.envelope raw)) tt
      (or_failed-Ends (codec.envelope raw))

pinged-Ends : (r : Got String) → Ends r → Ends (pinged r)
pinged-Ends (got s) h = tt
pinged-Ends (failed (pve e)) h = if-Ends (is_unknown e.code) _ (failed (pve e)) tt tt
pinged-Ends (failed other) h = tt
pinged-Ends spinning h = h

written-Ends : (r : Got String) → Ends r → Ends (written r)
written-Ends (got s) h = tt
written-Ends (failed e) h = tt
written-Ends spinning h = h

module _ (c : Cluster) where
  pub do_request-Ends :
      (method : Method) (path : Endpoint) (params : Option Params) (net : Net)
      → Ends (do_request c method path params net).0
  unfolding do_request send
  do_request-Ends method path params net =
      read_answer-Ends c.codec (c.answer (request_of method path params ∷ net.requests))

  post-change :
      (path : Endpoint) (params : Option Params) (net : Net)
      → changes (do_request c post path params net).1.requests
        ≡ request_of post path params ∷ changes net.requests
  unfolding do_request send changes
  post-change path params net = refl

  delete-change :
      (path : Endpoint) (params : Option Params) (net : Net)
      → changes (do_request c Method.delete path params net).1.requests
        ≡ request_of Method.delete path params ∷ changes net.requests
  unfolding do_request send changes
  delete-change path params net = refl

  -- a POST whose answer is read by `f`
  pub post-Does :
      {A : Type 0} (path : Endpoint) (params : Option Params) (f : String → Session A) (net : Net)
      → ((raw : String) (net : Net) → Ends (f raw net).0 × ((f raw net).1 ≡ net))
      → Does
          (request_of post path params)
          net
          (continue (do_request c post path params net).0 f (do_request c post path params net).1)
  post-Does path params f net h =
      let (r, net') = do_request c post path params net in
      let still =
        continue-Still r f net' (do_request-Ends post path params net) (λ raw. h raw net') in
      record { ended = still.0; change = rw still.1 (post-change path params net) }

  parse_upid-Ends : (raw : String) → Ends (parse_upid c.codec raw)
  unfolding parse_upid
  parse_upid-Ends raw = elim (c.codec.text raw) as (λ o. Ends (not_empty o)) [
    | none ↦ tt
    | some upid ↦ if-Ends (str_eq upid "") _ (got upid) tt tt
  ]

  task_on-Still :
      (node raw : String) (net : Net)
      → Ends (task_on c node raw net).0 × ((task_on c node raw net).1 ≡ net)
  task_on-Still node raw net =
      continue-Still (parse_upid c.codec raw) _ net (parse_upid-Ends raw) (λ _. (tt, refl))

  pub delete_vm-Does :
      (ref : VmRef) (purge : Bool) (net : Net)
      → Does
          (request_of Method.delete
            (vm_path ref.node ref.vmid)
            (some (("purge", bool_param purge) ∷ [])))
          net
          (delete_vm c ref purge net)
  unfolding delete_vm
  delete_vm-Does ref purge net =
      let params = some (("purge", bool_param purge) ∷ []) in
      let (r, net') = do_request c Method.delete (vm_path ref.node ref.vmid) params net in
      let still =
        continue-Still r (task_on c ref.node) net'
          (do_request-Ends Method.delete (vm_path ref.node ref.vmid) params net)
          (λ raw. task_on-Still ref.node raw net') in
      record {
        ended = still.0;
        change = rw still.1 (delete-change (vm_path ref.node ref.vmid) params net);
      }

  pub clone-Does :
      (r : CloneRequest) (net : Net)
      → Does
          (request_of post (clone_path r.source_node r.source_vmid) (some (clone_params r)))
          net
          (clone c r net)
  unfolding clone
  clone-Does r net = post-Does _ _ (task_on c r.source_node) net (task_on-Still r.source_node)

  pub configure-Does :
      (r : ConfigureRequest) (net : Net)
      → Does
          (request_of post (config_path r.ref.node r.ref.vmid) (some (configure_params r)))
          net
          (configure c r net)
  unfolding configure
  configure-Does r net = post-Does _ _ (task_on c r.ref.node) net (task_on-Still r.ref.node)

  pub status_action-Does :
      (action : String) (ref : VmRef) (net : Net)
      → Does
          (request_of post (action_path ref.node ref.vmid action) (some []))
          net
          (status_action c action ref net)
  unfolding status_action
  status_action-Does action ref net =
      post-Does _ _ (task_on c ref.node) net (task_on-Still ref.node)

  pub guest_ping-Does :
      (ref : VmRef) (net : Net)
      → Does
          (request_of post (agent_path ref.node ref.vmid "ping") (some []))
          net
          (guest_ping c ref net)
  unfolding guest_ping
  guest_ping-Does ref net = record {
    ended = pinged-Ends _ (do_request-Ends post _ _ net);
    change = post-change _ _ net;
  }

  pub write_guest_file-Does :
      (ref : VmRef) (path content : String) (net : Net)
      → Does
          (request_of post
            (agent_path ref.node ref.vmid "file-write")
            (some (file_params path content)))
          net
          (write_guest_file c ref path content net)
  unfolding write_guest_file
  write_guest_file-Does ref path content net = record {
    ended = written-Ends _ (do_request-Ends post _ _ net);
    change = post-change _ _ net;
  }
