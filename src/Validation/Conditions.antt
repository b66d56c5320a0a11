-- ===== src/Validation/Conditions.antt =====
-- The Boolean conditions of the checks, as propositions.
use text.Mathlib.Text.{◌==◌ as str_eq}
use text.Mathlib.TextEquality.{eq_iff}
use proxmox_manager.Base.{
  String, ◌≡◌, ◌≢◌, ◌↔◌, refl, sym, inl, inr, Bool, true, false, not, ◌&&◌, ◌||◌, List, [], ◌∷◌,
  arith, Bool-cases, if◌then◌else◌, &&-eq-true, All, In, any, all,
}
use proxmox_manager.Domain.{pass, fail, is_pass}
use proxmox_manager.Validation.Rules.{DuplicateMatch, has_blocking_duplicate, contains_all}

pub check_iff : (b : Bool) → (is_pass (if b then pass else fail) ≡ true) ↔ (b ≡ true)
check_iff b = ground arith

pub differs : (s t : String) → (not (str_eq s t) ≡ true) ↔ (s ≢ t)
differs s t = elim (Bool-cases (str_eq s t)) [
  | inl e ↦ (λ h. cc (rw e at h), λ d. elim (d ((eq_iff s t).0 e)) [ ])
  | inr e ↦ (λ h p. cc (e, (eq_iff s t).1 p), λ d. rw e refl)
]

pub implied : (b : Bool) (s t : String) → ((not b || str_eq s t) ≡ true) ↔ (b ≡ true → s ≡ t)
implied true s t = (λ h _. (eq_iff s t).0 h, λ f. (eq_iff s t).1 (f refl))
implied false s t = (λ h e. cc, λ f. refl)

pub and_iff : (a b : Bool) → ((a && b) ≡ true) ↔ ((a ≡ true) × (b ≡ true))
and_iff a b = (&&-eq-true a b, λ h. rw h.0 (rw h.1 refl))

pub requires : (b c : Bool) → ((not b || c) ≡ true) ↔ (b ≡ true → c ≡ true)
requires true c = (λ h _. h, λ f. f refl)
requires false c = (λ h e. cc, λ f. refl)

any-text : (t : String) (xs : List String) → (any (λ h. str_eq h t) xs ≡ true) ↔ In t xs
unfolding any
any-text t [] = (λ e. cc, λ m. elim m [ ])
any-text t (x ∷ xs) = elim (Bool-cases (str_eq x t)) [
  | inl e ↦ (λ _. inl (sym ((eq_iff x t).0 e)), λ _. rw e refl)
  | inr e ↦ (
    λ h. inr ((any-text t xs).0 (rw e at h)),
    λ m. rw e (elim m [ inl p ↦ cc (e, (eq_iff x t).1 (sym p)) | inr n ↦ (any-text t xs).1 n ]),
  )
]

-- containsAll is the membership of every wanted text.
pub contains_all_iff :
    (have want : List String) → (contains_all have want ≡ true) ↔ All (λ t. In t have) want
unfolding contains_all all
contains_all_iff have [] = (λ _. tt, λ _. refl)
contains_all_iff have (t ∷ want) = (
  λ h. let (a, b) = &&-eq-true _ _ h in ((any-text t have).0 a, (contains_all_iff have want).0 b),
  λ h. rw ((any-text t have).1 h.0) ((contains_all_iff have want).1 h.1),
)

row_iff :
    (r b x : Bool)
    → (not ((not r || b) || x) ≡ true) ↔ (((r ≡ true) × (b ≡ false)) × (not x ≡ true))
row_iff true true x = (λ h. cc, λ h. cc (h.0.1))
row_iff true false x = (λ h. ((refl, refl), h), λ h. h.1)
row_iff false b x = (λ h. cc, λ h. cc (h.0.0))

-- No match blocks: each is of a retired instance, and those do not block.
pub no_duplicate_iff :
    (matches : List DuplicateMatch) (block_retired : Bool)
    → (not (has_blocking_duplicate matches block_retired) ≡ true)
      ↔ All (λ m. (m.retired ≡ true) × (block_retired ≡ false)) matches
unfolding has_blocking_duplicate any
no_duplicate_iff [] b = (λ _. tt, λ _. refl)
no_duplicate_iff (m ∷ ms) b =
    let (f, g) = row_iff m.retired b (any (λ x. not x.retired || b) ms) in
    let (p, q) = no_duplicate_iff ms b in
    (λ h. let (here, rest) = f h in (here, p rest), λ h. g (h.0, q h.1))
