-- ===== src/Base/Slices.antt =====
-- The first n rows, and the rows after them.
use Prim.Native.Nat.{ℕ, zero, suc, ◌-◌, ◌≤◌, ◌<◌}
use mathlib.Core.Path.{◌≡◌, refl, ap, ◌∙◌}
use mathlib.Core.Logic.{inl, inr}
use mathlib.Core.Bool.{Bool, true, ◌&&◌}
use mathlib.Core.Option.{some}
use mathlib.Core.List.{List, [], ◌∷◌, ◌++◌}
use native.Mathlib.Omega.{arith}
use proxmox_manager.Base.Tests.{Bool-cases}
use proxmox_manager.Base.Tables.{All, length, select_where}
use proxmox_manager.Base.Sorting.{take, drop, last, Sorted, All-selected}

module _ {A : Type 0} where
  pub take-drop : (n : ℕ) (xs : List A) → take n xs ++ drop n xs ≡ xs
  take-drop zero xs = refl
  take-drop (suc n) [] = refl
  take-drop (suc n) (x ∷ xs) = ap (λ r. x ∷ r) (take-drop n xs)

  pub length-drop : (n : ℕ) (xs : List A) → length (drop n xs) ≡ length xs - n
  length-drop zero xs = omega arith
  length-drop (suc n) [] = omega arith
  length-drop (suc n) (x ∷ xs) = length-drop n xs ∙ omega arith

  pub take-short : (n : ℕ) (xs : List A) → length xs ≤ n → take n xs ≡ xs
  take-short zero [] h = refl
  take-short zero (x ∷ xs) h = absurd (omega arith)
  take-short (suc n) [] h = refl
  take-short (suc n) (x ∷ xs) h = ap (λ r. x ∷ r) (take-short n xs (omega arith))

  pub take-take-suc : (n : ℕ) (xs : List A) → take n (take (suc n) xs) ≡ take n xs
  take-take-suc zero xs = refl
  take-take-suc (suc n) [] = refl
  take-take-suc (suc n) (x ∷ xs) = ap (λ r. x ∷ r) (take-take-suc n xs)

  -- more than n rows, seen by asking for one more
  pub length-take-suc : (n : ℕ) (xs : List A) → n < length (take (suc n) xs) → n < length xs
  length-take-suc zero [] h = h
  length-take-suc zero (x ∷ xs) h = omega arith
  length-take-suc (suc n) [] h = h
  length-take-suc (suc n) (x ∷ xs) h =
      let rest : n < length xs = length-take-suc n xs (omega arith) in omega arith

  pub length-take-short : (n : ℕ) (xs : List A) → length (take (suc n) xs) ≤ n → length xs ≤ n
  length-take-short n [] h = omega arith
  length-take-short zero (x ∷ xs) h = absurd (omega arith)
  length-take-short (suc n) (x ∷ xs) h =
      let rest : length xs ≤ n = length-take-short n xs (omega arith) in omega arith

  last-in :
      (P : A → Type 0) (x : A) (n : ℕ) (xs : List A)
      → P x
      → All P xs
      → (c : A) × (last (x ∷ take n xs) ≡ some c) × P c
  last-in P x zero xs h all = (x, refl, h)
  last-in P x (suc n) [] h all = (x, refl, h)
  last-in P x (suc n) (y ∷ ys) h all = last-in P y n ys all.0 all.1

  -- a page of at least one row has a last row
  pub last-take :
      (P : A → Type 0) (n : ℕ) (xs : List A)
      → 1 ≤ n
      → n < length xs
      → All P xs
      → (c : A) × (last (take n xs) ≡ some c) × P c
  last-take P zero xs h lt all = absurd (omega arith)
  last-take P (suc n) [] h lt all = absurd (omega arith)
  last-take P (suc n) (x ∷ xs) h lt all = last-in P x n xs all.0 all.1

  pub select-and :
      (p q : A → Bool) (xs : List A)
      → select_where (λ x. p x && q x) xs ≡ select_where q (select_where p xs)
  unfolding select_where
  select-and p q [] = refl
  select-and p q (x ∷ xs) = elim (Bool-cases (p x)) [
    | inl t ↦ elim (Bool-cases (q x)) [
      | inl u ↦ rw t (rw u (ap (λ r. x ∷ r) (select-and p q xs)))
      | inr u ↦ rw t (rw u (select-and p q xs))
    ]
    | inr t ↦ rw t (select-and p q xs)
  ]

  -- a WHERE that a later one implies
  pub select-implied :
      (p q : A → Bool)
      → ((x : A) → q x ≡ true → p x ≡ true)
      → (xs : List A) → select_where q (select_where p xs) ≡ select_where q xs
  unfolding select_where
  select-implied p q h [] = refl
  select-implied p q h (x ∷ xs) = elim (Bool-cases (q x)) [
    | inl u ↦ rw (h x u) (rw u (ap (λ r. x ∷ r) (select-implied p q h xs)))
    | inr u ↦ elim (Bool-cases (p x)) [
      | inl t ↦ rw t (rw u (select-implied p q h xs))
      | inr t ↦ rw t (rw u (select-implied p q h xs))
    ]
  ]

  pub select-Sorted :
      (lt : A → A → Bool) (q : A → Bool) (xs : List A)
      → Sorted lt xs
      → Sorted lt (select_where q xs)
  unfolding select_where
  select-Sorted lt q [] s = tt
  select-Sorted lt q (x ∷ xs) s = elim (Bool-cases (q x)) [
    | inl t ↦ rw t (All-selected (λ y. lt x y ≡ true) q xs s.0, select-Sorted lt q xs s.1)
    | inr t ↦ rw t (select-Sorted lt q xs s.1)
  ]

  pub select-true : (xs : List A) → select_where (λ x. true) xs ≡ xs
  unfolding select_where
  select-true [] = refl
  select-true (x ∷ xs) = ap (λ r. x ∷ r) (select-true xs)
