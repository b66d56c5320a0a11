-- ===== src/Validation/Identity.antt =====
-- What a guest has to show (rules_identity_network.go), without the checks.
use text.Mathlib.Text.{◌==◌ as str_eq}
use text.Mathlib.TextEquality.{eq_iff}
use Prim.Native.String
use proxmox_manager.Base.{
  ℕ, String, ◌≤◌, ◌≡◌, ◌≢◌, ◌↔◌, refl, true, false, not, ◌&&◌, List, [], ◌∷◌, arith, leb, ==_iff,
  ◌==◌, All, In, map,
}
use proxmox_manager.Validation.Checks.{new_check, canonical_ssh_fingerprint}
use proxmox_manager.Validation.Rules.{
  Text, IdentityInput, DuplicateMatch, evaluate_identity_and_network, is_hex32, mac_match, is_empty,
}
use proxmox_manager.Validation.Digits.{
  IsLowerHex, IsUuid, is_lower_hex-IsLowerHex, is_uuid_like-IsUuid,
}
use proxmox_manager.Validation.Aggregate.{Passed}
use proxmox_manager.Validation.Conditions.{
  check_iff, differs, requires, and_iff, contains_all_iff, no_duplicate_iff,
}

-- the matches are of retired instances, and those do not block
abbrev pub Harmless : IdentityInput → List DuplicateMatch → Type 0
Harmless i matches = All (λ m. (m.retired ≡ true) × (i.block_retired_duplicate ≡ false)) matches

pub record IsAdmissible (text : Text) (i : IdentityInput) : Type 0 where
  pub machine_id_length : String.len i.facts.machine_id ≡ 32
  pub machine_id : IsLowerHex i.facts.machine_id
  pub unique_machine : Harmless i i.machine_id_duplicates
  pub fingerprint : canonical_ssh_fingerprint i.facts ≢ ""
  pub unique_fingerprint : Harmless i i.ssh_fingerprint_duplicates
  pub hostname : i.facts.hostname ≡ i.expected_hostname
  pub macs_expected : i.expected_mac_addresses ≢ []
  pub macs :
      All
        (λ m. In m (map text.to_lower i.facts.mac_addresses))
        (map text.to_lower i.expected_mac_addresses)
  pub cloud_init : i.facts.cloud_init_instance_id ≢ ""
  pub boot_id : IsUuid i.facts.boot_id
  pub single_nic : i.require_single_nic ≡ true → i.facts.nic_count ≡ 1
  pub address_expected : i.expected_ipv4 ≢ ""
  pub address : In i.expected_ipv4 i.facts.ipv4_addresses
  pub single_route : i.require_single_default_route ≡ true → i.facts.default_route_v4_count ≡ 1
  pub gateway :
      i.require_single_default_route ≡ true → i.facts.default_gateway_v4 ≡ i.expected_gateway_v4
  pub no_route_v6 : i.deny_ipv6_default_route ≡ true → i.facts.default_route_v6_count ≡ 0
  pub no_address_v6 : i.deny_ipv6_default_route ≡ true → i.facts.global_ipv6_addresses ≡ []
  pub nics : i.facts.nic_count ≤ 1
  pub routes : i.facts.default_route_v4_count ≤ 1

is_empty-eq-true : (xs : List String) → (is_empty xs ≡ true) ↔ (xs ≡ [])
is_empty-eq-true [] = (λ _. refl, λ _. refl)
is_empty-eq-true (x ∷ xs) = (λ h. cc, λ h. cc)

is_empty-eq-false : (xs : List String) → (not (is_empty xs) ≡ true) ↔ (xs ≢ [])
is_empty-eq-false [] = (λ h. cc, λ h. elim (h refl) [ ])
is_empty-eq-false (x ∷ xs) = (λ h e. cc, λ h. refl)

le_iff : (a b : ℕ) → (leb a b ≡ true) ↔ (a ≤ b)
le_iff a b = ground arith

identity-IsAdmissible :
    (text : Text) (i : IdentityInput)
    → All Passed (evaluate_identity_and_network text i)
    → IsAdmissible text i
unfolding evaluate_identity_and_network new_check is_hex32 mac_match
identity-IsAdmissible text i h =
    let f = i.facts in
    let (c1, (c2, (c3, (c4, (c5, (c6, (c7, (c8, (c9, (c10, (c11, (c12, (c13, _))))))))))))) = h in
    let (len, hex) = (and_iff _ _).0 ((check_iff _).0 c1) in
    let (fp, ssh) = (and_iff _ _).0 ((check_iff _).0 c3) in
    let (some_mac, macs) = (and_iff _ _).0 ((check_iff _).0 c5) in
    let (some_ip, ip) = (and_iff _ _).0 ((check_iff _).0 c9) in
    let (nics, routes) = (and_iff _ _).0 ((check_iff _).0 c13) in
    let route : i.require_single_default_route ≡ true
        → (f.default_route_v4_count == 1 && str_eq f.default_gateway_v4 i.expected_gateway_v4)
          ≡ true =
      (requires _ _).0 ((check_iff _).0 c10) in
    record {
      machine_id_length = (==_iff _ _).0 len;
      machine_id = (is_lower_hex-IsLowerHex _).0 hex;
      unique_machine = (no_duplicate_iff _ _).0 ((check_iff _).0 c2);
      fingerprint = (differs _ _).0 fp;
      unique_fingerprint = (no_duplicate_iff _ _).0 ssh;
      hostname = (eq_iff _ _).0 ((check_iff _).0 c4);
      macs_expected = (is_empty-eq-false _).0 some_mac;
      macs = (contains_all_iff _ _).0 macs;
      cloud_init = (differs _ _).0 ((check_iff _).0 c6);
      boot_id = (is_uuid_like-IsUuid _).0 ((check_iff _).0 c7);
      single_nic = λ e. (==_iff _ _).0 ((requires _ _).0 ((check_iff _).0 c8) e);
      address_expected = (differs _ _).0 some_ip;
      address = ((contains_all_iff _ _).0 ip).0;
      single_route = λ e. (==_iff _ _).0 ((and_iff _ _).0 (route e)).0;
      gateway = λ e. (eq_iff _ _).0 ((and_iff _ _).0 (route e)).1;
      no_route_v6 = λ e. (==_iff _ _).0 ((requires _ _).0 ((check_iff _).0 c11) e);
      no_address_v6 = λ e. (is_empty-eq-true _).0 ((requires _ _).0 ((check_iff _).0 c12) e);
      nics = (le_iff _ _).0 nics;
      routes = (le_iff _ _).0 routes;
    }

IsAdmissible-identity :
    (text : Text) (i : IdentityInput)
    → IsAdmissible text i
    → All Passed (evaluate_identity_and_network text i)
unfolding evaluate_identity_and_network new_check is_hex32 mac_match
IsAdmissible-identity text i h =
    let f = i.facts in
    let c1 =
      (check_iff _).1
        (rw ((==_iff _ _).1 h.machine_id_length) ((is_lower_hex-IsLowerHex _).1 h.machine_id)) in
    let c2 = (check_iff _).1 ((no_duplicate_iff _ _).1 h.unique_machine) in
    let c3 = (check_iff _).1 (
      (and_iff _ _).1
        ((differs _ _).1 h.fingerprint, (no_duplicate_iff _ _).1 h.unique_fingerprint)) in
    let c4 = (check_iff _).1 ((eq_iff _ _).1 h.hostname) in
    let c5 = (check_iff _).1 (
      (and_iff _ _).1 ((is_empty-eq-false _).1 h.macs_expected, (contains_all_iff _ _).1 h.macs)) in
    let c6 = (check_iff _).1 ((differs _ _).1 h.cloud_init) in
    let c7 = (check_iff _).1 ((is_uuid_like-IsUuid _).1 h.boot_id) in
    let c8 = (check_iff _).1 ((requires _ _).1 (λ e. (==_iff _ _).1 (h.single_nic e))) in
    let c9 = (check_iff _).1 (
      (and_iff _ _).1
        ((differs _ _).1 h.address_expected, (contains_all_iff _ _).1 (h.address, tt))) in
    let c10 = (check_iff _).1 (
      (requires _ _).1
        (λ e. (and_iff _ _).1 ((==_iff _ _).1 (h.single_route e), (eq_iff _ _).1 (h.gateway e)))) in
    let c11 = (check_iff _).1 ((requires _ _).1 (λ e. (==_iff _ _).1 (h.no_route_v6 e))) in
    let c12 =
      (check_iff _).1 ((requires _ _).1 (λ e. (is_empty-eq-true _).1 (h.no_address_v6 e))) in
    let c13 = (check_iff _).1 ((and_iff _ _).1 ((le_iff _ _).1 h.nics, (le_iff _ _).1 h.routes)) in
    (c1, (c2, (c3, (c4, (c5, (c6, (c7, (c8, (c9, (c10, (c11, (c12, (c13, tt)))))))))))))

-- The thirteen identity and network checks all pass exactly where the guest is admissible: its
-- machine id is 32 lower-case hexadecimal digits, the matches of the machine id and of the
-- fingerprint (which is not empty) are of retired instances and those do not block, the host name
-- is the expected one, MAC addresses are expected and present up to case, the cloud-init id is not
-- empty and the boot id has the form of a UUID (36 characters, a dash at the places 8, 13, 18 and 23
-- and hexadecimal digits at all others), the expected address is not empty and present, one
-- card and one IPv4 route through the expected gateway are there where they are required, no IPv6
-- route and no global IPv6 address where they are denied, and at most one card and one IPv4 route.
pub evaluate_identity_lem :
    (text : Text) (i : IdentityInput)
    → All Passed (evaluate_identity_and_network text i) ↔ IsAdmissible text i
evaluate_identity_lem text i = (identity-IsAdmissible text i, IsAdmissible-identity text i)
