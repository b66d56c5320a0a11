-- ===== src/Validation/Drift.antt =====
-- internal/validation/drift.go: a READY instance, against its last observation and the rules. The
-- guest's answer is an argument, as is the digest of a machine id. The facts and the digest, which a
-- scan returns too, are left out of its result.
use text.Mathlib.Text.{◌==◌ as str_eq}
use proxmox_manager.Base.{
  ℕ, ◌≤◌, ◌≢◌, All, In, All-intro, All-In, IsPreorder, first_by-IsChosen, first_by-none,
  Option-cases, ==_iff, arith, String, ◌≡◌, refl, inl, inr, Bool, true, false, ◌&&◌, ◌||◌, not,
  Option, none, some, List, [], ◌∷◌, ◌++◌, leb, ◌==◌, if◌then◌else◌, any, all, select_where,
  first_by, Result, ok, err, Bool-cases,
}
use proxmox_manager.Domain.{IdentityObservation, is_pass}
use proxmox_manager.Store.{Db}
use proxmox_manager.Validation.Checks.{Facts, Check, is_block, block, failed_with}
use proxmox_manager.Validation.Rules.{Text, IdentityInput, evaluate_identity_and_network}

pub data DriftClassification : Type 0 where
  repairable_drift quarantine_worthy_drift : DriftClassification

pub record DriftFinding : Type 0 where
  pub category : String
  pub classification : DriftClassification
  pub expected : String
  pub observed : String

-- without what names the guest and the packages
pub record DriftScannerInput : Type 0 where
  pub instance_id : ℕ
  pub expected_hostname : String
  pub expected_mac_addresses : List String
  pub expected_ipv4 : String
  pub expected_gateway_v4 : String
  pub require_single_nic : Bool
  pub require_single_default_route : Bool
  pub deny_ipv6_default_route : Bool

-- internal/storage/identity.go, ORDER BY observed_at DESC LIMIT 1
unfoldable pub latest_by_instance : ℕ → Db → Option IdentityObservation
latest_by_instance id db =
    first_by (λ a b. leb b.observed_at a.observed_at)
      (select_where (λ o. o.instance_id == id) db.observations)

-- ErrNotFound, an instance that was never observed, is no drift
abbrev pub digest_drift : Option IdentityObservation → String → List DriftFinding
digest_drift none fresh = []
digest_drift (some latest) fresh =
    if str_eq latest.machine_id_digest fresh
    then []
    else record {
      category = "identity_digest_stability";
      classification = DriftClassification.quarantine_worthy_drift;
      expected = latest.machine_id_digest;
      observed = fresh;
    }
      ∷ []

unfoldable pub compare_digest_stability : ℕ → String → Db → List DriftFinding
unfolding latest_by_instance
compare_digest_stability id fresh db = digest_drift (latest_by_instance id db) fresh

abbrev pub drift_of : Check → DriftFinding
drift_of c = record {
  category = c.rule_id;
  classification =
      if is_block c.severity
      then DriftClassification.quarantine_worthy_drift
      else DriftClassification.repairable_drift;
  expected = c.expected;
  observed = c.observed;
}

unfoldable pub classify_failed_checks : List Check → List DriftFinding
classify_failed_checks [] = []
classify_failed_checks (c ∷ cs) =
    let rest = classify_failed_checks cs in if is_pass c.result then rest else drift_of c ∷ rest

module _ (text : Text) (digest : String → String) where
  -- the duplicates are not looked for
  abbrev pub drift_input : DriftScannerInput → Facts → IdentityInput
  drift_input input facts = record {
    facts = facts;
    machine_id_digest = digest facts.machine_id;
    machine_id_duplicates = [];
    ssh_fingerprint_duplicates = [];
    block_retired_duplicate = false;
    expected_hostname = input.expected_hostname;
    expected_mac_addresses = input.expected_mac_addresses;
    expected_ipv4 = input.expected_ipv4;
    expected_gateway_v4 = input.expected_gateway_v4;
    require_single_nic = input.require_single_nic;
    require_single_default_route = input.require_single_default_route;
    deny_ipv6_default_route = input.deny_ipv6_default_route;
  }

  unfoldable pub scan_instance : DriftScannerInput → Db → Result Facts → Result (List DriftFinding)
  unfolding compare_digest_stability classify_failed_checks
  scan_instance input db (err e) = err e
  scan_instance input db (ok facts) = ok (
      compare_digest_stability input.instance_id (digest facts.machine_id) db
      ++ classify_failed_checks (evaluate_identity_and_network text (drift_input input facts)))

abbrev pub is_quarantine_worthy : DriftFinding → Bool
is_quarantine_worthy f = elim f.classification [
  | DriftClassification.repairable_drift ↦ false
  | DriftClassification.quarantine_worthy_drift ↦ true
]

abbrev pub is_nil : List DriftFinding → Bool
is_nil [] = true
is_nil (f ∷ fs) = false

-- the digest is that of the last observation, if there is one
abbrev pub is_stable : Option IdentityObservation → String → Bool
is_stable none fresh = true
is_stable (some latest) fresh = str_eq latest.machine_id_digest fresh

-- what a scan finds, and whether it is cause for a quarantine
abbrev pub Found : List DriftFinding → Bool → Bool → Type 0
Found fs clean worthy = (is_nil fs ≡ clean) × (any is_quarantine_worthy fs ≡ worthy)

classify_failed_checks-Found :
    (cs : List Check)
    → Found
        (classify_failed_checks cs)
        (all (λ c. is_pass c.result) cs)
        (any (failed_with block) cs)
unfolding classify_failed_checks all any
classify_failed_checks-Found [] = (refl, refl)
classify_failed_checks-Found (c ∷ cs) =
    let (clean, worthy) = classify_failed_checks-Found cs in
    elim (Bool-cases (is_pass c.result)) [
      | inl p ↦ rw p (clean, worthy)
      | inr p ↦ elim (Bool-cases (is_block c.severity)) [
        | inl b ↦ rw p (refl, rw b refl)
        | inr b ↦ rw p (refl, rw b worthy)
      ]
    ]

digest_drift-Found :
    (o : Option IdentityObservation) (fresh : String) (fs : List DriftFinding) (clean worthy : Bool)
    → Found fs clean worthy
    → Found
        (digest_drift o fresh ++ fs)
        (is_stable o fresh && clean)
        (not (is_stable o fresh) || worthy)
unfolding any
digest_drift-Found none fresh fs clean worthy h = h
digest_drift-Found (some latest) fresh fs clean worthy h =
    elim (Bool-cases (str_eq latest.machine_id_digest fresh)) [
      | inl t ↦ rw t h
      | inr t ↦ rw t (refl, refl)
    ]

-- the last observation of the instance, if it was ever observed
abbrev pub IsLast : ℕ → List IdentityObservation → Option IdentityObservation → Type 0
IsLast id observations none = All (λ o. o.instance_id ≢ id) observations
IsLast id observations (some last) =
    In last observations
    × (last.instance_id ≡ id)
    × All (λ o. o.instance_id ≡ id → o.observed_at ≤ last.observed_at) observations

abbrev later : IdentityObservation → IdentityObservation → Bool
later a b = leb b.observed_at a.observed_at

later-IsPreorder : IsPreorder later
later-IsPreorder = record {
  reflexive = λ a. ground arith;
  transitive = λ a b c h k. ground arith;
  total = λ a b h. ground arith;
}

at_most : (a b : ℕ) → leb a b ≡ true → a ≤ b
at_most a b h = ground arith

latest-IsLast : (id : ℕ) (db : Db) → IsLast id db.observations (latest_by_instance id db)
unfolding latest_by_instance
latest-IsLast id db =
    elim (Option-cases (first_by later (select_where (λ o. o.instance_id == id) db.observations))) [
      | inl e ↦
          let others = first_by-none later (λ o. o.instance_id == id) db.observations e in
          rw e (
            All-intro _ db.observations λ o m same.
              let miss : (o.instance_id == id) ≡ false = All-In _ db.observations others m in
              cc (miss, (==_iff o.instance_id id).1 same))
      | inr (last, e) ↦
          let chosen =
            first_by-IsChosen later later-IsPreorder (λ o. o.instance_id == id) db.observations last
              e in
          rw e (
            chosen.is_row,
            (==_iff last.instance_id id).0 chosen.fits,
            All-intro _ db.observations λ o m same.
                at_most o.observed_at last.observed_at
                  (All-In _ db.observations chosen.is_first m ((==_iff o.instance_id id).1 same)),
          )
    ]

-- A scan of an instance whose facts could be read finds nothing exactly where the digest of its
-- machine id is that of its last observation, if there is one, and every identity and network check
-- passed. Some finding is worth a quarantine exactly where the digest is another, or a check of
-- severity block did not pass.
pub scan_instance_lem :
    (text : Text) (digest : String → String) (input : DriftScannerInput) (db : Db) (facts : Facts)
    → let checks = evaluate_identity_and_network text (drift_input text digest input facts) in
      (last : Option IdentityObservation) × IsLast input.instance_id db.observations last
      × (fs : List DriftFinding) × (scan_instance text digest input db (ok facts) ≡ ok fs)
      × Found fs
          (is_stable last (digest facts.machine_id) && all (λ c. is_pass c.result) checks)
          (not (is_stable last (digest facts.machine_id)) || any (failed_with block) checks)
unfolding scan_instance compare_digest_stability
scan_instance_lem text digest input db facts =
    let checks : List Check =
      evaluate_identity_and_network text (drift_input text digest input facts) in
    (
      latest_by_instance input.instance_id db,
      latest-IsLast input.instance_id db,
      _,
      refl,
      digest_drift-Found (latest_by_instance input.instance_id db) (digest facts.machine_id)
          (classify_failed_checks checks) _ _ (classify_failed_checks-Found checks),
    )
