-- ===== src/Validation/Egress.antt =====
-- What an egress proof has to show (rules_egress.go), without the checks.
use text.Mathlib.TextEquality.{eq_iff}
use proxmox_manager.Base.{
  ℕ, ◌-◌, ◌≤◌, ◌≡◌, ◌≢◌, ◌↔◌, refl, true, Option, none, some, arith, leb, leb→le, ==_iff, ◌==◌,
  if◌then◌else◌, All, &&-eq-true,
}
use proxmox_manager.Validation.Checks.{new_check}
use proxmox_manager.Validation.Rules.{
  Text, EgressInput, evaluate_egress, evaluate_proof_freshness, is_fresh,
}
use proxmox_manager.Validation.Aggregate.{Passed}
use proxmox_manager.Validation.Conditions.{check_iff, differs, implied}

-- `time.Now` stands in for a time that is not given
abbrev pub time_of : Text → EgressInput → ℕ
time_of text i = if i.now == 0 then text.time_now else i.now

-- a proof of the expected mapping and generation, through an active proxy, without a leak, taken
-- no later than now and no longer ago than the bound
pub record IsProof (text : Text) (i : EgressInput) : Type 0 where
  pub result : i.evidence.result ≡ "PASS"
  pub mapping : i.evidence.mapping_id ≡ i.expected_mapping_id
  pub generation : i.evidence.rules_generation ≡ i.desired_generation
  pub exit : i.evidence.ipv4 ≢ ""
  pub ipv6 : i.deny_ipv6 ≡ true → i.evidence.ipv6 ≡ "BLOCKED"
  pub leaks : i.evidence.direct_leak_packets ≡ 0
  pub proxy : i.evidence.proxy_health ≡ "ACTIVE"
  pub checked_at : ℕ
  pub parsed : text.parse_time i.evidence.checked_at ≡ some checked_at
  pub past : checked_at ≤ time_of text i
  pub recent : time_of text i - checked_at ≤ i.proof_max_age

is_fresh-eq-true :
    (text : Text) (o : Option ℕ) (now max_age : ℕ)
    → is_fresh text o now max_age ≡ true
    → (at : ℕ) × (o ≡ some at) × (at ≤ now) × (now - at ≤ max_age)
is_fresh-eq-true text none now max_age e = cc
is_fresh-eq-true text (some at) now max_age e =
    let (a, b) = &&-eq-true (leb at now) (leb (now - at) max_age) e in
    (at, refl, leb→le at now a, leb→le (now - at) max_age b)

fresh :
    (text : Text) (at now max_age : ℕ)
    → at ≤ now
    → now - at ≤ max_age
    → is_fresh text (some at) now max_age ≡ true
fresh text at now max_age past recent = ground arith

-- All seven egress checks pass exactly where the evidence is a proof: result PASS for the expected
-- mapping, the desired generation of rules, an exit address, IPv6 blocked where it is denied, no
-- leaked packet, an ACTIVE proxy, and a time of checking that parses, does not lie in the future
-- and is at most the given bound ago.
pub evaluate_egress_lem :
    (text : Text) (i : EgressInput) → All Passed (evaluate_egress text i) ↔ IsProof text i
unfolding evaluate_egress evaluate_proof_freshness new_check
evaluate_egress_lem text i = (
  λ h.
      let (at, parsed, past, recent) =
        is_fresh-eq-true text (text.parse_time i.evidence.checked_at) (time_of text i)
          i.proof_max_age ((check_iff _).0 h.1.1.1.1.1.1.0) in
      let c1 = &&-eq-true _ _ ((check_iff _).0 h.0) in
      record {
        result = (eq_iff i.evidence.result "PASS").0 c1.0;
        mapping = (==_iff _ _).0 c1.1;
        generation = (==_iff _ _).0 ((check_iff _).0 h.1.0);
        exit = (differs i.evidence.ipv4 "").0 ((check_iff _).0 h.1.1.0);
        ipv6 = (implied i.deny_ipv6 i.evidence.ipv6 "BLOCKED").0 ((check_iff _).0 h.1.1.1.0);
        leaks = (==_iff _ _).0 ((check_iff _).0 h.1.1.1.1.0);
        proxy = (eq_iff _ _).0 ((check_iff _).0 h.1.1.1.1.1.0);
        checked_at = at;
        parsed = parsed;
        past = past;
        recent = recent;
      },
  λ h. (
    (check_iff _).1 (rw ((eq_iff _ _).1 h.result) (rw ((==_iff _ _).1 h.mapping) refl)),
    (
      (check_iff _).1 ((==_iff _ _).1 h.generation),
      (
        (check_iff _).1 ((differs i.evidence.ipv4 "").1 h.exit),
        (
          (check_iff _).1 ((implied i.deny_ipv6 i.evidence.ipv6 "BLOCKED").1 h.ipv6),
          (
            (check_iff _).1 ((==_iff _ _).1 h.leaks),
            (
              (check_iff _).1 ((eq_iff _ _).1 h.proxy),
              (
                (check_iff _).1 (
                    rw h.parsed
                      (fresh text h.checked_at (time_of text i) i.proof_max_age h.past h.recent)),
                tt,
              ),
            ),
          ),
        ),
      ),
    ),
  ),
)
