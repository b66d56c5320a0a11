-- ===== src/Validation/Rules.antt =====
-- internal/validation/rules_identity_network.go and rules_egress.go.
use text.Mathlib.Text.{◌==◌ as str_eq}
use Prim.Native.String
use Prim.Native.String.{◌++◌}
use proxmox_manager.Base.{
  ℕ, ◌-◌, String, Bool, true, false, ◌&&◌, ◌||◌, not, Option, none, some, List, [], ◌∷◌, leb, ◌==◌,
  if◌then◌else◌, any, all, map,
}
use proxmox_manager.Validation.Checks.{
  Check, block, warning, new_check, is_lower_hex, is_uuid_like, Facts, canonical_ssh_fingerprint,
}

-- The functions of Go's standard library on text that the rules use: strconv.Itoa and FormatInt,
-- strings.Join with ",", strings.ToLower, time.Parse(time.RFC3339, …), Duration.String and
-- time.Now.
pub record Text : Type 0 where
  pub itoa : ℕ → String
  pub join : List String → String
  pub to_lower : String → String
  pub parse_time : String → Option ℕ
  pub show_duration : ℕ → String
  pub time_now : ℕ

pub record DuplicateMatch : Type 0 where
  pub instance_id : ℕ
  pub retired : Bool

pub record IdentityInput : Type 0 where
  pub facts : Facts
  pub machine_id_digest : String
  pub machine_id_duplicates : List DuplicateMatch
  pub ssh_fingerprint_duplicates : List DuplicateMatch
  pub block_retired_duplicate : Bool
  pub expected_hostname : String
  pub expected_mac_addresses : List String
  pub expected_ipv4 : String
  pub expected_gateway_v4 : String
  pub require_single_nic : Bool
  pub require_single_default_route : Bool
  pub deny_ipv6_default_route : Bool

unfoldable pub has_blocking_duplicate : List DuplicateMatch → Bool → Bool
has_blocking_duplicate matches block_retired = any (λ m. not m.retired || block_retired) matches

-- the set built from `have`, and the lookups in it
unfoldable pub contains_all : List String → List String → Bool
contains_all have want = all (λ w. any (λ h. str_eq h w) have) want

abbrev pub is_empty : List String → Bool
is_empty [] = true
is_empty (_ ∷ _) = false

unfoldable pub is_hex32 : String → Bool
is_hex32 s = String.len s == 32 && is_lower_hex s

module _ (text : Text) where
  open text use {itoa, join, to_lower, parse_time, show_duration, time_now}

  unfoldable pub mac_match : IdentityInput → Bool
  mac_match i =
      not (is_empty i.expected_mac_addresses)
      && contains_all (map to_lower i.facts.mac_addresses) (map to_lower i.expected_mac_addresses)

  unfoldable pub evaluate_identity_and_network : IdentityInput → List Check
  unfolding mac_match
  evaluate_identity_and_network i =
      let f = i.facts in
      let now = if f.collected_at == 0 then time_now else f.collected_at in
      let fp = canonical_ssh_fingerprint f in
      new_check "ID-001" block "32 lowercase hex chars" i.machine_id_digest (is_hex32 f.machine_id)
        now
      ∷ new_check "ID-002" block "unique" i.machine_id_digest
          (not (has_blocking_duplicate i.machine_id_duplicates i.block_retired_duplicate)) now
      ∷ new_check "ID-003" block "fingerprint mới, chưa từng thấy ở instance khác" fp
          (not (str_eq fp "")
            && not (has_blocking_duplicate i.ssh_fingerprint_duplicates i.block_retired_duplicate))
          now
      ∷ new_check "ID-004" block i.expected_hostname f.hostname
          (str_eq f.hostname i.expected_hostname) now
      ∷ new_check "ID-005" block (join i.expected_mac_addresses) (join f.mac_addresses)
          (mac_match i) now
      ∷ new_check "ID-006" warning "non-empty (so khớp generation là gap đã biết)"
          f.cloud_init_instance_id (not (str_eq f.cloud_init_instance_id "")) now
      ∷ new_check "ID-008" warning "valid UUID" f.boot_id (is_uuid_like f.boot_id) now
      ∷ new_check "NET-001" block "1" (itoa f.nic_count)
          (not i.require_single_nic || f.nic_count == 1) now
      ∷ new_check "NET-002" block i.expected_ipv4 (join f.ipv4_addresses)
          (not (str_eq i.expected_ipv4 "") && contains_all f.ipv4_addresses (i.expected_ipv4 ∷ []))
          now
      ∷ new_check "NET-003" block ("1 route qua " ++ i.expected_gateway_v4)
          (itoa f.default_route_v4_count ++ " route, gateway=" ++ f.default_gateway_v4)
          (not i.require_single_default_route
            || (f.default_route_v4_count == 1 && str_eq f.default_gateway_v4 i.expected_gateway_v4))
          now
      ∷ new_check "NET-004" block "0 (policy deny)" (itoa f.default_route_v6_count)
          (not i.deny_ipv6_default_route || f.default_route_v6_count == 0) now
      ∷ new_check "NET-005" block "none (policy deny)" (join f.global_ipv6_addresses)
          (not i.deny_ipv6_default_route || is_empty f.global_ipv6_addresses) now
      ∷ new_check "NET-009" block "absent"
          (itoa f.nic_count ++ " nic, " ++ itoa f.default_route_v4_count ++ " v4 route")
          (leb f.nic_count 1 && leb f.default_route_v4_count 1) now
      ∷ []

-- pgw.EgressEvidence; identifiers are numbers
pub record EgressEvidence : Type 0 where
  pub client_id : ℕ
  pub mapping_id : ℕ
  pub result : String
  pub checked_at : String
  pub ipv4 : String
  pub ipv6 : String
  pub policy : String
  pub direct_leak_packets : ℕ
  pub proxy_health : String
  pub rules_generation : ℕ

pub record EgressInput : Type 0 where
  pub evidence : EgressEvidence
  pub expected_mapping_id : ℕ
  pub desired_generation : ℕ
  pub deny_ipv6 : Bool
  pub proof_max_age : ℕ
  pub now : ℕ

module _ (text : Text) where
  open text use {itoa, join, to_lower, parse_time, show_duration, time_now}

  -- `age >= 0 && age <= maxAge` for the signed age `now - t`
  abbrev pub is_fresh : Option ℕ → ℕ → ℕ → Bool
  is_fresh none now max_age = false
  is_fresh (some t) now max_age = leb t now && leb (now - t) max_age

  -- the age as text, with its sign
  abbrev pub observed_age : Option ℕ → String → ℕ → String
  observed_age none checked_at now = "unparseable checked_at: " ++ checked_at
  observed_age (some t) checked_at now =
      if leb t now then "age=" ++ show_duration (now - t) else "age=-" ++ show_duration (t - now)

  unfoldable pub evaluate_proof_freshness : String → ℕ → ℕ → Bool × String
  evaluate_proof_freshness checked_at now max_age = (
    is_fresh (parse_time checked_at) now max_age,
    observed_age (parse_time checked_at) checked_at now,
  )

  unfoldable pub evaluate_egress : EgressInput → List Check
  unfolding evaluate_proof_freshness
  evaluate_egress i =
      let e = i.evidence in
      let now = if i.now == 0 then time_now else i.now in
      let (fresh, observed) = evaluate_proof_freshness e.checked_at now i.proof_max_age in
      new_check "EGR-001" block ("PASS, mapping_id=" ++ itoa i.expected_mapping_id)
        (e.result ++ ", mapping_id=" ++ itoa e.mapping_id)
        (str_eq e.result "PASS" && e.mapping_id == i.expected_mapping_id) now
      ∷ new_check "EGR-002" block (itoa i.desired_generation) (itoa e.rules_generation)
          (e.rules_generation == i.desired_generation) now
      ∷ new_check "EGR-003" block "non-empty exit IP (so khớp policy cụ thể là gap đã biết)" e.ipv4
          (not (str_eq e.ipv4 "")) now
      ∷ new_check "EGR-004" block "BLOCKED (policy deny)" e.ipv6
          (not i.deny_ipv6 || str_eq e.ipv6 "BLOCKED") now
      ∷ new_check "EGR-005" block "0" (itoa e.direct_leak_packets) (e.direct_leak_packets == 0) now
      ∷ new_check "EGR-006" block "ACTIVE" e.proxy_health (str_eq e.proxy_health "ACTIVE") now
      ∷ new_check "EGR-007" block ("within " ++ show_duration i.proof_max_age) observed fresh now
      ∷ []
