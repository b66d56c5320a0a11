-- ===== src/Validation/Checks.antt =====
-- internal/validation/check.go and evidence.go (the result; the evidence JSON is the list of checks
-- itself), and the part of internal/guest/facts.go that the rules read.
use text.Mathlib.Text.{◌==◌ as str_eq}
use Prim.Native.Char.{code}
use Prim.Native.String
use proxmox_manager.Base.{
  ℕ, suc, String, Bool, true, false, ◌&&◌, ◌||◌, not, List, [], ◌∷◌, leb, ◌==◌, if◌then◌else◌, all,
}
use proxmox_manager.Domain.{ValidationResult, pass, warn, fail, is_pass}

pub data Severity : Type 0 where
  block warning : Severity

abbrev pub is_block : Severity → Bool
is_block block = true
is_block warning = false

-- `Version` and `Collector` are the same constants in every check
pub record Check : Type 0 where
  pub rule_id : String
  pub severity : Severity
  pub expected : String
  pub observed : String
  pub result : ValidationResult
  pub collected_at : ℕ

unfoldable pub new_check : String → Severity → String → String → Bool → ℕ → Check
new_check rule_id severity expected observed passed collected_at = record {
  rule_id = rule_id;
  severity = severity;
  expected = expected;
  observed = observed;
  result = if passed then pass else fail;
  collected_at = collected_at;
}

abbrev pub failed_with : Severity → Check → Bool
failed_with block c = not (is_pass c.result) && is_block c.severity
failed_with warning c = not (is_pass c.result) && not (is_block c.severity)

-- the loop of Aggregate, over the two flags blockFail and warnFail
unfoldable pub aggregate_loop : Bool → Bool → List Check → Bool × Bool
aggregate_loop block_fail warn_fail [] = (not block_fail, warn_fail)
aggregate_loop block_fail warn_fail (c ∷ cs) =
    aggregate_loop (if failed_with block c then true else block_fail)
      (if failed_with warning c then true else warn_fail) cs

unfoldable pub aggregate : List Check → Bool × Bool
unfolding aggregate_loop
aggregate checks = aggregate_loop false false checks

unfoldable pub build_evidence : List Check → ValidationResult
unfolding aggregate
build_evidence checks =
    let (passed, warn_failed) = aggregate checks in
    if not passed then fail else if warn_failed then warn else pass

-- the code points of a text
abbrev pub codes : String → List ℕ
codes String.[] = []
codes (String.◌∷◌ c s) = code c ∷ codes s

unfoldable pub is_digit_or_lower : ℕ → Bool
is_digit_or_lower c = leb b'0' c && leb c b'9' || leb b'a' c && leb c b'f'

unfoldable pub is_lower_hex : String → Bool
unfolding is_digit_or_lower
is_lower_hex s = not (str_eq s "") && all is_digit_or_lower (codes s)

unfoldable pub is_hex_digit : ℕ → Bool
unfolding is_digit_or_lower
is_hex_digit c = is_digit_or_lower c || leb b'A' c && leb c b'F'

-- `switch i { case 8, 13, 18, 23: … }`
abbrev pub uuid_char : ℕ → ℕ → Bool
uuid_char i c = if i == 8 || i == 13 || i == 18 || i == 23 then c == b'-' else is_hex_digit c

unfoldable pub uuid_loop : ℕ → List ℕ → Bool
uuid_loop i [] = true
uuid_loop i (c ∷ cs) = uuid_char i c && uuid_loop (suc i) cs

unfoldable pub is_uuid_like : String → Bool
unfolding uuid_loop is_hex_digit
is_uuid_like s = String.len s == 36 && uuid_loop 0 (codes s)

-- guest.Facts; the map of fingerprints is the list of its entries in the order of iteration
pub record Facts : Type 0 where
  pub machine_id : String
  pub boot_id : String
  pub hostname : String
  pub cloud_init_instance_id : String
  pub ssh_host_key_fingerprints : List (String × String)
  pub mac_addresses : List String
  pub ipv4_addresses : List String
  pub global_ipv6_addresses : List String
  pub nic_count : ℕ
  pub default_route_v4_count : ℕ
  pub default_route_v6_count : ℕ
  pub default_gateway_v4 : String
  pub collected_at : ℕ

abbrev pub fingerprint_of : String → List (String × String) → String
fingerprint_of key [] = ""
fingerprint_of key ((k, fp) ∷ m) = if str_eq k key then fp else fingerprint_of key m

abbrev pub first_non_empty : List (String × String) → String
first_non_empty [] = ""
first_non_empty ((_, fp) ∷ m) = if str_eq fp "" then first_non_empty m else fp

abbrev pub preferred : List String → List (String × String) → String
preferred [] m = first_non_empty m
preferred (key ∷ keys) m =
    let fp = fingerprint_of key m in
    let rest = preferred keys m in if str_eq fp "" then rest else fp

abbrev pub ssh_key_preference : List String
ssh_key_preference =
    "ssh_host_ed25519_key.pub" ∷ "ssh_host_ecdsa_key.pub" ∷ "ssh_host_rsa_key.pub" ∷ []

unfoldable pub canonical_ssh_fingerprint : Facts → String
canonical_ssh_fingerprint f = preferred ssh_key_preference f.ssh_host_key_fingerprints
