-- ===== src/Ipam/Hostname.antt =====
-- internal/ipam/hostname.go: the counters that host names are numbered by.
use text.Mathlib.Text.{◌==◌ as str_eq}
use text.Mathlib.TextEquality.{eq_iff}
use proxmox_manager.Base.{
  ℕ, String, ◌+◌, ◌≡◌, ◌≢◌, refl, sym, ap, arith, ◌∙◌, inl, inr, true, false, Option-cases,
  find-eq-some, find-eq-none, find-update_where, any-In, In-find, find-append-none, Bool, List, [],
  ◌∷◌, ◌++◌, Option, none, some, any, find, update_where, if◌then◌else◌, Exec, Result, ok, err,
  failure,
}

pub record Sequence : Type 0 where
  pub prefix : String
  pub next_value : ℕ

abbrev pub has_prefix : String → Sequence → Bool
has_prefix prefix s = str_eq s.prefix prefix

-- INSERT … ON CONFLICT (prefix) DO UPDATE SET next_value = next_value + 1
unfoldable pub upsert : String → List Sequence → List Sequence
upsert prefix rows =
    if any (has_prefix prefix) rows
    then update_where (has_prefix prefix) (λ s. record s { next_value = s.next_value + 1 }) rows
    else rows ++ (record { prefix = prefix; next_value = 1 }) ∷ []

-- `format` is the Sprintf of "%s-%04d"
unfoldable pub next : (String → ℕ → String) → String → Exec (List Sequence) String
unfolding upsert
next format prefix rows =
    let rows' = upsert prefix rows in (named (find (has_prefix prefix) rows'), rows')
  where
    named : Option Sequence → Result String
    named none = err failure
    named (some s) = ok (format prefix s.next_value)

-- the last number that a prefix was given, 0 before the first
abbrev pub value_of : Option Sequence → ℕ
value_of none = 0
value_of (some s) = s.next_value

abbrev pub value_at : String → List Sequence → ℕ
value_at prefix rows = value_of (find (has_prefix prefix) rows)

pub upsert-found :
    (prefix : String) (rows : List Sequence)
    → (s : Sequence) × (find (has_prefix prefix) (upsert prefix rows) ≡ some s)
      × (s.next_value ≡ value_at prefix rows + 1)
unfolding upsert
upsert-found prefix rows = elim (Option-cases (find (has_prefix prefix) rows)) [
  | inl e ↦
      let absent : any (has_prefix prefix) rows ≡ false = find-eq-none (has_prefix prefix) rows e in
      (
        record { prefix = prefix; next_value = 1 },
        rw absent (find-append-none (has_prefix prefix) rows _ e ((eq_iff prefix prefix).1 refl)),
        rw e refl,
      )
  | inr (s, e) ↦
      let present : any (has_prefix prefix) rows ≡ true =
        any-In (has_prefix prefix) rows s (In-find (has_prefix prefix) rows s e)
          (find-eq-some (has_prefix prefix) rows s e) in
      (
        record s { next_value = s.next_value + 1 },
        rw present (
            find-update_where (has_prefix prefix) (has_prefix prefix)
              (λ x. record x { next_value = x.next_value + 1 }) (λ x. refl) rows
            ∙ rw e (rw (find-eq-some (has_prefix prefix) rows s e) refl)),
        rw e refl,
      )
]

-- A prefix is numbered from 1 on, without a gap: the name is made of the number after the last one
-- given, which is then the last one given.
pub next_lem :
    (format : String → ℕ → String) (prefix : String) (rows : List Sequence)
    → (next format prefix rows
        ≡ (ok (format prefix (value_at prefix rows + 1)), upsert prefix rows))
      × (value_at prefix (upsert prefix rows) ≡ value_at prefix rows + 1)
unfolding next
next_lem format prefix rows =
    let (s, found, v) = upsert-found prefix rows in (rw found (rw v refl), ap value_of found ∙ v)

-- Where the names of different numbers are different: two names that are given out for a prefix,
-- one after the other, are different.
next-distinct :
    (format : String → ℕ → String) (prefix : String)
    → ((a b : ℕ) → format prefix a ≡ format prefix b → a ≡ b)
    → (rows : List Sequence)
    → (next format prefix rows).0 ≢ (next format prefix (next format prefix rows).1).0
next-distinct format prefix injective rows same =
    let (first, moved) = next_lem format prefix rows in
    let (second, _) = next_lem format prefix (upsert prefix rows) in
    let names : Path (Result String) (ok (format prefix (value_at prefix rows + 1)))
        (ok (format prefix (value_at prefix (upsert prefix rows) + 1))) =
      ap (λ o. o.0) (sym first)
      ∙ same
      ∙ ap (λ o. (next format prefix o.1).0) first
      ∙ ap (λ o. o.0) second in
    let numbers : value_at prefix rows + 1 ≡ value_at prefix (upsert prefix rows) + 1 =
      injective _ _ (ap name names) in
    absurd (omega arith)
  where
    name : Result String → String
    name (ok n) = n
    name (err _) = ""
