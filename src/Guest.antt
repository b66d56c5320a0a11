-- ===== src/Guest.antt =====
-- internal/guest/facts.go: the facts of a guest, from the output of a script in it. The text of the
-- script, encoding/json and net.ParseIP are parameters; the release and the kernel are left out.
pub mod Fingerprints
use text.Mathlib.Text.{◌==◌ as str_eq}
use proxmox_manager.Base.{
  ℕ, String, Bool, true, false, ◌&&◌, ◌||◌, not, Option, none, some, List, [], ◌∷◌, ◌==◌, ◌++◌,
  if◌then◌else◌, cut_at, split_at,
}
use proxmox_manager.Validation.Checks.{Facts}
use proxmox_manager.Proxmox.Session.{
  Cluster, Got, got, failed, other, or_failed, Session, pure, lift, time_now, ◌>>=◌, ◌>>◌,
}
use proxmox_manager.Proxmox.Messages.{VmRef}
use proxmox_manager.Proxmox.Guest.{wait_exec}

pub record RawFacts : Type 0 where
  pub machine_id : String
  pub boot_id : String
  pub hostname : String
  pub cloud_init_instance_id : String
  pub ssh_host_key_fingerprints : String
  pub nic_count : ℕ
  pub default_route_v4_count : ℕ
  pub default_route_v6_count : ℕ
  pub link_json : String
  pub addr_json : String
  pub route4_json : String

pub record IpLinkEntry : Type 0 where
  pub if_name : String
  pub address : String

pub record IpAddrInfoEntry : Type 0 where
  pub family : String
  pub local_ : String

pub record IpAddrEntry : Type 0 where
  pub if_name : String
  pub addr_info : List IpAddrInfoEntry

pub record IpRouteEntry : Type 0 where
  pub gateway : String
  pub dev : String

-- what net.ParseIP says of a text that is an address
pub record Ip : Type 0 where
  pub is_link_local_unicast : Bool
  pub is_loopback : Bool

-- of the inner blocks of JSON, the lists that Unmarshal leaves, with its error or without
pub record Reader : Type 0 where
  pub raw_facts : String → Option RawFacts
  pub links : String → List IpLinkEntry
  pub addrs : String → List IpAddrEntry
  pub routes : String → List IpRouteEntry
  pub parse_ip : String → Option Ip
  pub facts_script : String

unfoldable pub macs_of : List IpLinkEntry → List String
macs_of [] = []
macs_of (l ∷ links) =
    let rest = macs_of links in
    if str_eq l.if_name "lo" || str_eq l.address "" then rest else l.address ∷ rest

-- `switch info.Family { case "inet": … }`
unfoldable pub ipv4s_in : List IpAddrInfoEntry → List String
ipv4s_in [] = []
ipv4s_in (info ∷ infos) =
    let rest = ipv4s_in infos in if str_eq info.family "inet" then info.local_ ∷ rest else rest

abbrev pub is_global : Option Ip → Bool
is_global none = false
is_global (some ip) = not ip.is_link_local_unicast && not ip.is_loopback

unfoldable pub global_ipv6s_in : Reader → List IpAddrInfoEntry → List String
global_ipv6s_in reader [] = []
global_ipv6s_in reader (info ∷ infos) =
    let rest = global_ipv6s_in reader infos in
    if str_eq info.family "inet6" && is_global (reader.parse_ip info.local_)
    then info.local_ ∷ rest
    else rest

-- the loop over the interfaces, without the loopback
unfoldable pub of_interfaces : (List IpAddrInfoEntry → List String) → List IpAddrEntry → List String
of_interfaces f [] = []
of_interfaces f (a ∷ addrs) =
    let rest = of_interfaces f addrs in
    if str_eq a.if_name "lo" then rest else f a.addr_info ++ rest

abbrev gateway_of : List IpRouteEntry → String
gateway_of [] = ""
gateway_of (route ∷ _) = route.gateway

-- m[key] = fp, where the entries stay in the order in which their keys came
unfoldable pub put : String → String → List (String × String) → List (String × String)
put key fp [] = (key, fp) ∷ []
put key fp ((k, f) ∷ m) = if str_eq k key then (k, fp) ∷ m else (k, f) ∷ put key fp m

abbrev pub put_entry : Option (String × String) → List (String × String) → List (String × String)
put_entry none m = m
put_entry (some (key, fp)) m = if str_eq key "" || str_eq fp "" then m else put key fp m

-- the loop over the entries
unfoldable pub put_entries : List String → List (String × String) → List (String × String)
unfolding put
put_entries [] m = m
put_entries (entry ∷ entries) m = put_entries entries (put_entry (cut_at b':' entry) m)

unfoldable pub fingerprints_of : String → List (String × String)
unfolding put_entries cut_at split_at
fingerprints_of raw = if str_eq raw "" then [] else put_entries (split_at b',' raw) []

unfoldable pub normalize_facts : Reader → RawFacts → ℕ → Facts
unfolding macs_of ipv4s_in global_ipv6s_in of_interfaces fingerprints_of
normalize_facts reader raw collected_at = record {
  machine_id = raw.machine_id;
  boot_id = raw.boot_id;
  hostname = raw.hostname;
  cloud_init_instance_id = raw.cloud_init_instance_id;
  ssh_host_key_fingerprints = fingerprints_of raw.ssh_host_key_fingerprints;
  mac_addresses = macs_of (reader.links raw.link_json);
  ipv4_addresses = of_interfaces ipv4s_in (reader.addrs raw.addr_json);
  global_ipv6_addresses = of_interfaces (global_ipv6s_in reader) (reader.addrs raw.addr_json);
  nic_count = raw.nic_count;
  default_route_v4_count = raw.default_route_v4_count;
  default_route_v6_count = raw.default_route_v6_count;
  default_gateway_v4 = gateway_of (reader.routes raw.route4_json);
  collected_at = collected_at;
}

-- Collect, whose runner is the Proxmox adapter
unfoldable pub collect : Cluster → Reader → VmRef → ℕ → Session Facts
unfolding normalize_facts
collect c reader ref timeout = do
  result ← wait_exec c ref ("bash" ∷ "-c" ∷ reader.facts_script ∷ []) timeout
  lift (if result.exit_code == 0 then got tt else failed other)
  raw ← lift (or_failed (reader.raw_facts result.stdout))
  now ← time_now
  pure (normalize_facts reader raw now)
