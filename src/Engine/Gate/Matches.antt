-- ===== src/Engine/Gate/Matches.antt =====
-- Which other instances an identity is looked for among (FindDuplicateMachineDigest and
-- FindDuplicateSSHFingerprint of internal/storage/identity.go).
use text.Mathlib.Text.{◌==◌ as str_eq}
use text.Mathlib.TextEquality.{eq_iff}
use proxmox_manager.Base.{
  ℕ, Bool, ◌↔◌, ◌⊎◌, ◌&&◌, not, is_some, In, any, any-In, any-exists, &&-eq-true, ==_iff, String,
  ◌≡◌, ◌≢◌, refl, inl, inr, true, List, [], Bool-cases, map, select_where, ◌==◌, if◌then◌else◌,
}
use proxmox_manager.Domain.{IdentityObservation, VmInstance}
use proxmox_manager.Store.{Db}
use proxmox_manager.Validation.Rules.{DuplicateMatch}
use proxmox_manager.Engine.Evidence.{is_duplicate, match_of}

-- v is another instance, that was seen with this value in the column
abbrev pub IsSeen : (IdentityObservation → String) → String → ℕ → Db → VmInstance → Type 0
IsSeen column value id db v =
    (v.id ≢ id)
    × (o : IdentityObservation) × In o db.observations
    × (o.instance_id ≡ v.id)
    × (column o ≡ value)

-- one match for each other instance that was seen with the value, in the order of the table
abbrev pub AreMatches :
    (IdentityObservation → String) → String → ℕ → Db → List DuplicateMatch → Type 0
AreMatches column value id db matches =
    (seen : VmInstance → Bool) × ((v : VmInstance) → (seen v ≡ true) ↔ IsSeen column value id db v)
    × (matches
        ≡ map (λ v. record { instance_id = v.id; retired = is_some v.retired_at })
            (select_where seen db.instances))

-- an empty fingerprint is not looked for
abbrev pub AreSshMatches : String → ℕ → Db → List DuplicateMatch → Type 0
AreSshMatches fp id db matches =
    ((fp ≡ "") × (matches ≡ []))
    ⊎ (fp ≢ "") × AreMatches (λ o. o.ssh_host_fingerprint) fp id db matches

duplicate_iff :
    (column : IdentityObservation → String) (value : String) (id : ℕ) (db : Db) (v : VmInstance)
    → (is_duplicate (λ o. str_eq (column o) value) id db.observations v ≡ true)
      ↔ IsSeen column value id db v
duplicate_iff column value id db v = (
  λ h.
      let (other, found) = &&-eq-true (not (v.id == id)) (any seen db.observations) h in
      let (o, m, e) = any-exists seen db.observations found in
      let (same, fits) = &&-eq-true (o.instance_id == v.id) (str_eq (column o) value) e in
      (
        λ p. cc (other, (==_iff v.id id).1 p),
        o,
        m,
        (==_iff o.instance_id v.id).0 same,
        (eq_iff (column o) value).0 fits,
      ),
  λ h. elim (Bool-cases (v.id == id)) [
    | inl e ↦ absurd (h.0 ((==_iff v.id id).0 e))
    | inr e ↦ rw e (
        any-In seen db.observations h.1 h.2
          (rw ((==_iff h.1.instance_id v.id).1 h.3) ((eq_iff (column h.1) value).1 h.4)))
  ],
)
  where
    seen : IdentityObservation → Bool
    seen o = (o.instance_id == v.id) && str_eq (column o) value

pub matches-AreMatches :
    (column : IdentityObservation → String) (value : String) (id : ℕ) (db : Db)
    → AreMatches column value id db (
        map match_of (
          select_where
            (is_duplicate (λ o. str_eq (column o) value) id db.observations)
            db.instances))
matches-AreMatches column value id db = (_, duplicate_iff column value id db, refl)

abbrev pub ssh_matches : String → ℕ → Db → List DuplicateMatch
ssh_matches fp id db =
    if str_eq fp ""
    then []
    else map match_of (
        select_where (is_duplicate (λ o. str_eq o.ssh_host_fingerprint fp) id db.observations)
          db.instances)

pub ssh_matches-AreSshMatches :
    (fp : String) (id : ℕ) (db : Db) → AreSshMatches fp id db (ssh_matches fp id db)
ssh_matches-AreSshMatches fp id db = elim (Bool-cases (str_eq fp "")) [
  | inl e ↦ rw e (inl ((eq_iff fp "").0 e, refl))
  | inr e ↦ rw e (
      inr (
        (λ p. cc (e, (eq_iff fp "").1 p)),
        matches-AreMatches (λ o. o.ssh_host_fingerprint) fp id db,
      ))
]
