-- ===== src/Base/Order.antt =====
-- SELECT … WHERE p ORDER BY le LIMIT 1: a first row of those selected, under a total preorder.
use mathlib.Core.Path.{◌≡◌, refl, sym, subst}
use mathlib.Core.Logic.{inl, inr}
use mathlib.Core.Bool.{Bool, true, false}
use mathlib.Core.Option.{Option, none, some, some-injective}
use mathlib.Core.List.{List, [], ◌∷◌}
use proxmox_manager.Base.Tests.{if◌then◌else◌, Bool-cases, Option-cases}
use proxmox_manager.Base.Tables.{All, select_where}
use proxmox_manager.Base.Keys.{In, In-select_where, All-select_where, All-In}

module _ {A : Type 0} where
  abbrev pub prefer : (A → A → Bool) → A → Option A → A
  prefer le a none = a
  prefer le a (some b) = if le a b then a else b

  unfoldable pub first_by : (A → A → Bool) → List A → Option A
  first_by le [] = none
  first_by le (a ∷ rest) = some (prefer le a (first_by le rest))

pub record IsPreorder {A : Type 0} (le : A → A → Bool) : Type 0 where
  pub reflexive : (a : A) → le a a ≡ true
  pub transitive : (a b c : A) → le a b ≡ true → le b c ≡ true → le a c ≡ true
  pub total : (a b : A) → le a b ≡ false → le b a ≡ true

-- What a SELECT with a WHERE, an ORDER BY and LIMIT 1 returns: a row that fits the WHERE, and that
-- no fitting row has to stand before.
pub record IsChosen {A : Type 0} (p : A → Bool) (le : A → A → Bool) (xs : List A) (c : A)
    : Type 0 where
  pub is_row : In c xs
  pub fits : p c ≡ true
  pub is_first : All (λ a. p a ≡ true → le c a ≡ true) xs

module _ {A : Type 0} (le : A → A → Bool) (order : IsPreorder le) where
  abbrev IsFirst : A → List A → Type 0
  IsFirst c xs = In c xs × All (λ a. le c a ≡ true) xs

  All-le :
      (a b : A) (xs : List A)
      → le a b ≡ true
      → All (λ x. le b x ≡ true) xs
      → All (λ x. le a x ≡ true) xs
  All-le a b [] h l = tt
  All-le a b (x ∷ xs) h l = (order.transitive a b x h l.0, All-le a b xs h l.1)

  IsFirst-if :
      (a b : A) (xs : List A) (t : Bool)
      → le a b ≡ t
      → IsFirst b xs
      → IsFirst (if t then a else b) (a ∷ xs)
  IsFirst-if a b xs true t (m, l) = (inl refl, (order.reflexive a, All-le a b xs t l))
  IsFirst-if a b xs false t (m, l) = (inr m, (order.total a b t, l))

  first_by-IsFirst : (xs : List A) (c : A) → first_by le xs ≡ some c → IsFirst c xs
  unfolding first_by
  first_by-IsFirst [] c e = cc
  first_by-IsFirst (a ∷ xs) c e = elim (Option-cases (first_by le xs)) [
    | inl p ↦ alone xs p (some-injective a c (rw p at e))
    | inr (b, p) ↦
        let e' : (if le a b then a else b) ≡ c = some-injective _ c (rw p at e) in
        subst (λ z. IsFirst z (a ∷ xs)) e'
          (IsFirst-if a b xs (le a b) refl (first_by-IsFirst xs b p))
  ]
    where
      alone : (l : List A) → first_by le l ≡ none → a ≡ c → IsFirst c (a ∷ l)
      alone [] p e' = (inl (sym e'), (subst (λ z. le z a ≡ true) e' (order.reflexive a), tt))
      alone (x ∷ xs) p e' = cc

  All-selected :
      (p : A → Bool) (c : A) (xs : List A)
      → All (λ a. le c a ≡ true) (select_where p xs)
      → All (λ a. p a ≡ true → le c a ≡ true) xs
  unfolding select_where
  All-selected p c [] l = tt
  All-selected p c (a ∷ xs) l = elim (Bool-cases (p a)) [
    | inl t ↦
        let l' : All (λ a. le c a ≡ true) (a ∷ select_where p xs) = rw t at l in
        (λ _. l'.0, All-selected p c xs l'.1)
    | inr t ↦ (λ s. cc, All-selected p c xs (rw t at l))
  ]

  pub first_by-IsChosen :
      (p : A → Bool) (xs : List A) (c : A)
      → first_by le (select_where p xs) ≡ some c
      → IsChosen p le xs c
  first_by-IsChosen p xs c e =
      let (m, l) = first_by-IsFirst (select_where p xs) c e in
      record {
        is_row = In-select_where p xs c m;
        fits = All-In _ _ (All-select_where p xs) m;
        is_first = All-selected p c xs l;
      }

pub first_by-none :
    {A : Type 0} (le : A → A → Bool) (p : A → Bool) (xs : List A)
    → first_by le (select_where p xs) ≡ none
    → All (λ a. p a ≡ false) xs
unfolding first_by select_where
first_by-none le p [] e = tt
first_by-none le p (a ∷ xs) e = elim (Bool-cases (p a)) [
  | inl t ↦ let e' : first_by le (a ∷ select_where p xs) ≡ none = rw t at e in cc e'
  | inr t ↦ (t, first_by-none le p xs (rw t at e))
]
