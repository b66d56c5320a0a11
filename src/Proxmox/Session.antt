-- ===== src/Proxmox/Session.antt =====
-- What the client of internal/proxmox works on: the requests sent so far, the last one first, and the
-- time. The cluster's answers, the time that they take and what encoding/json reads of them are
-- parameters, functions of the requests sent so far with this one.
use proxmox_manager.Base.{
  ℕ, ◌+◌, String, Bool, true, false, Option, none, some, List, [], ◌∷◌, if◌then◌else◌,
}

pub data Method : Type 0 where
  get post delete : Method

-- a parameter's value: as it is, by strconv.Itoa, or by the base64 encoding
pub data Value : Type 0 where
  plain : String → Value
  itoa : ℕ → Value
  base64 : String → Value

-- url.Values: the pairs of the form, in the order in which they are set
abbrev pub Params : Type 0
Params = List (String × Value)

-- the paths that Sprintf writes of a node, a VM's number and an action
pub data Endpoint : Type 0 where
  next_id_path : Endpoint
  vm_path clone_path config_path current_path : String → ℕ → Endpoint
  action_path agent_path : String → ℕ → String → Endpoint
  task_path : String → String → Endpoint

pub record Request : Type 0 where
  pub method : Method
  pub path : Endpoint
  pub query : Params
  pub body : Option Params

pub data Code : Type 0 where
  auth_failed vmid_conflict bridge_not_found storage_capacity task_unknown vm_locked : Code
  template_invalid guest_agent_unavailable unknown_code : Code

-- Error
pub record PveError : Type 0 where
  pub code : Code
  pub message : String
  pub http_status : ℕ

-- an error of the client: an Error, or any other
pub data Fault : Type 0 where
  pve : PveError → Fault
  other : Fault

pub data Answer : Type 0 where
  unreachable : Answer
  response : ℕ → String → Answer

-- ExecResult
pub record ExecResult : Type 0 where
  pub exited : Bool
  pub exit_code : ℕ
  pub stdout : String
  pub stderr : String

-- encoding/json at the shapes that are read, strings.ToLower, strconv.Atoi and the text of
-- Sprintf("%s %s"); of the answer of an error, the message and the text of `errors` if that is not
-- empty; of an exec-status, `exited` as a number
pub record Codec : Type 0 where
  pub envelope : String → Option String
  pub error_body : String → Option (String × Option String)
  pub with_details : String → String → String
  pub to_lower : String → String
  pub text : String → Option String
  pub number : String → Option ℕ
  pub atoi : String → Option ℕ
  -- `status` and `exitstatus`
  pub task_status : String → Option (String × String)
  -- `name`, `status` and `lock`
  pub vm_status : String → Option (String × String × String)
  pub net0 : String → Option String
  pub pid : String → Option ℕ
  -- `exited`, `exitcode`, `out-data` and `err-data`
  pub exec_status : String → Option (ℕ × ℕ × String × String)

pub record Cluster : Type 0 where
  pub answer : List Request → Answer
  pub took : List Request → ℕ
  -- how much later than asked for a wait ends, and whether the context is done before
  pub late : List Request → ℕ
  pub cancelled : List Request → Bool
  pub codec : Codec

pub record Net : Type 0 where
  pub requests : List Request
  -- the time, in nanoseconds
  pub now : ℕ

-- `spinning`: a loop that ran out of fuel
pub data Got {ℓ} (A : Type ℓ) : Type ℓ where
  got : A → Got A
  failed : Fault → Got A
  spinning : Got A

abbrev pub Session : Type 0 → Type 0
Session A = Net → Got A × Net

abbrev pub or_failed {ℓ} : {A : Type ℓ} → Option A → Got A
or_failed none = failed other
or_failed (some a) = got a

module _ {A : Type 0} where
  abbrev pub pure : A → Session A
  pure a net = (got a, net)

  abbrev pub lift : Got A → Session A
  lift r net = (r, net)

  -- the error is dropped
  abbrev pub attempt : Session A → Session (Got A)
  attempt m net = let (r, net') = m net in (got r, net')

module _ {A B : Type 0} where
  abbrev pub continue : Got A → (A → Session B) → Session B
  continue (got a) f net = f a net
  continue (failed e) f net = (failed e, net)
  continue spinning f net = (spinning, net)

  infixl 10 ◌>>=◌ ◌>>◌
  abbrev pub ◌>>=◌ : Session A → (A → Session B) → Session B
  ◌>>=◌ m f net = let (r, net') = m net in continue r f net'

  abbrev pub ◌>>◌ : Session A → Session B → Session B
  m >> n = m >>= λ _. n

abbrev pub time_now : Session ℕ
time_now net = (got net.now, net)

unfoldable pub send : Cluster → Request → Session Answer
send c r net =
    let rs = r ∷ net.requests in
    (got (c.answer rs), record { requests = rs; now = net.now + c.took rs })

-- select on ctx.Done() and time.After(d)
unfoldable pub sleep : Cluster → ℕ → Session (Unit {0})
sleep c d net = (
  if c.cancelled net.requests then failed other else got tt,
  record net { now = net.now + d + c.late net.requests },
)

abbrev pub is_change : Method → Bool
is_change get = false
is_change post = true
is_change delete = true

-- the requests that are not a GET
unfoldable pub changes : List Request → List Request
changes [] = []
changes (r ∷ rs) = let rest = changes rs in if is_change r.method then r ∷ rest else rest
