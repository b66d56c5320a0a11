-- ===== src/Proxmox/Messages.antt =====
-- internal/proxmox/types.go, and the functions of adapter.go that write the parameters of a request and
-- read an answer.
use text.Mathlib.Text.{◌==◌ as str_eq}
use Prim.Native.String.{◌++◌ as append}
use proxmox_manager.Base.{
  ℕ, zero, suc, ◌*◌, String, Bool, true, false, ◌&&◌, not, Option, none, some, [], ◌∷◌, ◌++◌, ltb,
  if◌then◌else◌, cut_at,
}
use proxmox_manager.Proxmox.Session.{
  plain, itoa, Params, Value, Code, unknown_code, task_unknown, Fault, pve, other, Codec, Got, got,
  failed, spinning, or_failed,
}
use proxmox_manager.Proxmox.Client.{guest_agent_error}

pub record VmRef : Type 0 where
  pub node : String
  pub vmid : ℕ

pub record TaskRef : Type 0 where
  pub node : String
  pub upid : String

pub record TaskStatus : Type 0 where
  pub status : String
  pub exit_status : String

abbrev pub is_done : TaskStatus → Bool
is_done s = str_eq s.status "stopped"

abbrev pub is_success : TaskStatus → Bool
is_success s = is_done s && str_eq s.exit_status "OK"

pub record CloneRequest : Type 0 where
  pub source_node : String
  pub source_vmid : ℕ
  pub target_node : String
  pub target_vmid : ℕ
  pub name : String
  pub storage : String
  pub pool : String
  pub full_clone : Bool
  pub description : String

pub record NetConfig : Type 0 where
  pub bridge : String
  pub firewall : Bool

pub record ConfigureRequest : Type 0 where
  pub ref : VmRef
  pub cores : ℕ
  pub sockets : ℕ
  pub memory_mb : ℕ
  pub cpu_type : String
  pub agent : Bool
  pub on_boot : Bool
  pub net0 : NetConfig
  pub ip_config0 : String

pub record VmObservedState : Type 0 where
  pub ref : VmRef
  pub name : String
  pub status : String
  pub locked : String

abbrev pub is_running : VmObservedState → Bool
is_running s = str_eq s.status "running"

abbrev pub bool_param : Bool → Value
bool_param b = if b then plain "1" else plain "0"

abbrev when : Bool → String → Value → Params
when b key v = if b then (key, v) ∷ [] else []

abbrev when_text : String → String → Params
when_text key s = when (not (str_eq s "")) key (plain s)

abbrev when_positive : String → ℕ → Params
when_positive key n = when (ltb 0 n) key (itoa n)

unfoldable pub clone_params : CloneRequest → Params
clone_params r =
    ("newid", itoa r.target_vmid)
    ∷ ("full", bool_param r.full_clone)
    ∷ (when_text "name" r.name
        ++ when_text "storage" r.storage
        ++ when_text "pool" r.pool
        ++ when_text "description" r.description
        ++ when (not (str_eq r.target_node "") && not (str_eq r.target_node r.source_node)) "target"
            (plain r.target_node))

unfoldable pub build_net0 : NetConfig → String
build_net0 n =
    let s = append "virtio,bridge=" n.bridge in if n.firewall then append s ",firewall=1" else s

unfoldable pub configure_params : ConfigureRequest → Params
unfolding build_net0
configure_params r =
    when_positive "cores" r.cores
    ++ when_positive "sockets" r.sockets
    ++ when_positive "memory" r.memory_mb
    ++ when_text "cpu" r.cpu_type
    ++ (("agent", bool_param r.agent)
        ∷ ("onboot", bool_param r.on_boot)
        ∷ (when (not (str_eq r.net0.bridge "")) "net0" (plain (build_net0 r.net0))
            ++ when_text "ipconfig0" r.ip_config0))

-- parseUPID: a JSON text that is not empty
abbrev pub not_empty : Option String → Got String
not_empty none = failed other
not_empty (some upid) = if str_eq upid "" then failed other else got upid

unfoldable pub parse_upid : Codec → String → Got String
parse_upid codec raw = not_empty (codec.text raw)

-- parseFlexibleInt: a JSON number, or a text that Atoi reads
abbrev pub number_in_text : Codec → Option String → Got ℕ
number_in_text codec none = failed other
number_in_text codec (some s) = or_failed (codec.atoi s)

abbrev pub number_or_text : Codec → String → Option ℕ → Got ℕ
number_or_text codec raw (some n) = got n
number_or_text codec raw none = number_in_text codec (codec.text raw)

unfoldable pub parse_flexible_int : Codec → String → Got ℕ
parse_flexible_int codec raw = number_or_text codec raw (codec.number raw)

abbrev first_field : String → Option (String × String) → String
first_field whole none = whole
first_field whole (some (field, _)) = field

abbrev mac_after : Codec → Option (String × String) → String
mac_after codec none = ""
mac_after codec (some (_, mac)) = codec.to_lower mac

unfoldable pub parse_net0_mac : Codec → String → String
unfolding cut_at
parse_net0_mac codec net0 = mac_after codec (cut_at b'=' (first_field net0 (cut_at b',' net0)))

-- the error of WaitForTask, and that of GuestPing where Proxmox gives no known one
abbrev pub task_timeout : Fault
task_timeout = pve (record {
  code = task_unknown;
  message = "task did not finish within timeout";
  http_status = 0;
})

abbrev pub is_unknown : Code → Bool
is_unknown unknown_code = true
is_unknown _ = false

abbrev pub pinged : Got String → Got (Unit {0})
pinged (got _) = got tt
pinged (failed (pve e)) =
    if is_unknown e.code then failed (pve (guest_agent_error e.message)) else failed (pve e)
pinged (failed other) = failed other
pinged spinning = spinning

abbrev pub second : ℕ
second = 1_000_000_000

-- the delays of 1, 2, 3, 5 and 8 seconds, then of 10
unfoldable pub wait_of : ℕ → ℕ
wait_of zero = 1 * second
wait_of (suc zero) = 2 * second
wait_of (suc (suc zero)) = 3 * second
wait_of (suc (suc (suc zero))) = 5 * second
wait_of (suc (suc (suc (suc zero)))) = 8 * second
wait_of _ = 10 * second

abbrev pub task_status_of : Option (String × String) → Got TaskStatus
task_status_of none = failed other
task_status_of (some (status, exit_status)) =
    got (record { status = status; exit_status = exit_status })

abbrev pub observed_state_of : VmRef → Option (String × String × String) → Got VmObservedState
observed_state_of ref none = failed other
observed_state_of ref (some (name, status, lock)) =
    got (record { ref = ref; name = name; status = status; locked = lock })
