-- ===== src/Base/Sorting.antt =====
-- ORDER BY a strict order, LIMIT n, and the rows after one of them.
use Prim.Native.Nat.{ℕ, zero, suc}
use mathlib.Core.Path.{◌≡◌, refl, sym, ap, ◌∙◌, subst}
use mathlib.Core.Logic.{◌⊎◌, inl, inr}
use mathlib.Core.Bool.{Bool, true, false}
use mathlib.Core.Option.{Option, none, some, some-injective}
use mathlib.Core.List.{List, [], ◌∷◌}
use proxmox_manager.Base.Tests.{if◌then◌else◌, ◌==◌, Bool-cases}
use proxmox_manager.Base.Tables.{All, select_where}
use proxmox_manager.Base.Keys.{Unique}

module _ {A : Type 0} where
  abbrev pub take : ℕ → List A → List A
  take zero xs = []
  take (suc n) [] = []
  take (suc n) (x ∷ xs) = x ∷ take n xs

  abbrev pub drop : ℕ → List A → List A
  drop zero xs = xs
  drop (suc n) [] = []
  drop (suc n) (x ∷ xs) = drop n xs

  abbrev pub last : List A → Option A
  last [] = none
  last (x ∷ []) = some x
  last (x ∷ y ∷ xs) = last (y ∷ xs)

  module _ (lt : A → A → Bool) where
    unfoldable pub insert : A → List A → List A
    insert a [] = a ∷ []
    insert a (b ∷ bs) = let rest = insert a bs in if lt a b then a ∷ b ∷ bs else b ∷ rest

    unfoldable pub sort_by : List A → List A
    unfolding insert
    sort_by [] = []
    sort_by (x ∷ xs) = insert x (sort_by xs)

    abbrev pub Sorted : List A → Type 0
    Sorted [] = Unit
    Sorted (x ∷ xs) = All (λ y. lt x y ≡ true) xs × Sorted xs

module _ {A : Type 0} where
  pub All-selected :
      (P : A → Type 0) (q : A → Bool) (xs : List A) → All P xs → All P (select_where q xs)
  unfolding select_where
  All-selected P q [] all = tt
  All-selected P q (x ∷ xs) all = elim (Bool-cases (q x)) [
    | inl t ↦ rw t (all.0, All-selected P q xs all.1)
    | inr t ↦ rw t (All-selected P q xs all.1)
  ]

-- a strict order that tells rows with different keys apart
pub record IsOrder {A : Type 0} (key : A → ℕ) (lt : A → A → Bool) : Type 0 where
  pub irreflexive : (a : A) → lt a a ≡ false
  pub transitive : (a b c : A) → lt a b ≡ true → lt b c ≡ true → lt a c ≡ true
  pub asymmetric : (a b : A) → lt a b ≡ true → lt b a ≡ false
  pub total : (a b : A) → (key b == key a) ≡ false → lt a b ≡ false → lt b a ≡ true

module _ {A : Type 0} (key : A → ℕ) (lt : A → A → Bool) (order : IsOrder key lt) where
  All-below :
      (a b : A) (xs : List A)
      → lt a b ≡ true
      → All (λ y. lt b y ≡ true) xs
      → All (λ y. lt a y ≡ true) xs
  All-below a b [] h all = tt
  All-below a b (x ∷ xs) h (hx, all) = (order.transitive a b x h hx, All-below a b xs h all)

  All-insert : (P : A → Type 0) (a : A) (xs : List A) → P a → All P xs → All P (insert lt a xs)
  unfolding insert
  All-insert P a [] h all = (h, tt)
  All-insert P a (b ∷ bs) h all = elim (Bool-cases (lt a b)) [
    | inl t ↦ rw t (h, all)
    | inr t ↦ rw t (all.0, All-insert P a bs h all.1)
  ]

  pub All-sort_by : (P : A → Type 0) (xs : List A) → All P xs → All P (sort_by lt xs)
  unfolding sort_by
  All-sort_by P [] all = tt
  All-sort_by P (x ∷ xs) all = All-insert P x (sort_by lt xs) all.0 (All-sort_by P xs all.1)

  Sorted-insert :
      (a : A) (xs : List A)
      → All (λ y. (key y == key a) ≡ false) xs
      → Sorted lt xs
      → Sorted lt (insert lt a xs)
  unfolding insert
  Sorted-insert a [] new s = (tt, tt)
  Sorted-insert a (b ∷ bs) new s = elim (Bool-cases (lt a b)) [
    | inl t ↦ rw t ((t, All-below a b bs t s.0), s)
    | inr t ↦ rw t (
      All-insert (λ y. lt b y ≡ true) a bs (order.total a b new.0 t) s.0,
      Sorted-insert a bs new.1 s.1,
    )
  ]

  pub sort_by-Sorted : (xs : List A) → Unique key xs → Sorted lt (sort_by lt xs)
  unfolding sort_by
  sort_by-Sorted [] u = tt
  sort_by-Sorted (x ∷ xs) u =
      Sorted-insert x (sort_by lt xs) (All-sort_by (λ y. (key y == key x) ≡ false) xs u.0)
        (sort_by-Sorted xs u.1)

  insert-first : (a : A) (xs : List A) → All (λ y. lt a y ≡ true) xs → insert lt a xs ≡ a ∷ xs
  unfolding insert
  insert-first a [] all = refl
  insert-first a (b ∷ bs) all = rw all.0 refl

  select-insert :
      (q : A → Bool) (a : A) (xs : List A)
      → Sorted lt xs
      → select_where q (insert lt a xs)
        ≡ (if q a then insert lt a (select_where q xs) else select_where q xs)
  unfolding insert select_where
  select-insert q a [] s = refl
  select-insert q a (b ∷ bs) s = elim (Bool-cases (lt a b)) [
    | inl t ↦
        let rest : List A = select_where q (b ∷ bs) in
        let below : All (λ y. lt a y ≡ true) rest =
          All-selected (λ y. lt a y ≡ true) q (b ∷ bs) (t, All-below a b bs t s.0) in
        rw t (ap (λ r. if q a then r else rest) (sym (insert-first a rest below)))
    | inr t ↦ elim (Bool-cases (q b)) [
      | inl u ↦ elim (Bool-cases (q a)) [
        | inl v ↦ rw t (rw u (rw (select-insert q a bs s.1) (rw v (rw t refl))))
        | inr v ↦ rw t (rw u (rw (select-insert q a bs s.1) (rw v refl)))
      ]
      | inr u ↦ rw t (rw u (select-insert q a bs s.1))
    ]
  ]

  -- A WHERE before the ORDER BY is one after it.
  pub select-sort_by :
      (q : A → Bool) (xs : List A)
      → Unique key xs
      → select_where q (sort_by lt xs) ≡ sort_by lt (select_where q xs)
  unfolding sort_by select_where
  select-sort_by q [] u = refl
  select-sort_by q (x ∷ xs) u =
      select-insert q x (sort_by lt xs) (sort_by-Sorted xs u.1) ∙ elim (Bool-cases (q x)) [
        | inl t ↦ rw t (ap (insert lt x) (select-sort_by q xs u.1))
        | inr t ↦ rw t (select-sort_by q xs u.1)
      ]

  select_where-kept :
      (q : A → Bool) (xs : List A) → All (λ y. q y ≡ true) xs → select_where q xs ≡ xs
  unfolding select_where
  select_where-kept q [] all = refl
  select_where-kept q (x ∷ xs) all = rw all.0 (ap (λ r. x ∷ r) (select_where-kept q xs all.1))

  AtOrAfter : A → A → Type 0
  AtOrAfter c x = (lt x c ≡ true) ⊎ (x ≡ c)

  page_end :
      (c x : A) (n : ℕ) (xs : List A)
      → Sorted lt (x ∷ xs)
      → last (x ∷ take n xs) ≡ some c
      → AtOrAfter c x × (select_where (lt c) (x ∷ xs) ≡ drop n xs)
  unfolding select_where AtOrAfter
  page_end c x zero xs s e =
      let same : x ≡ c = some-injective x c e in
      let here : lt c x ≡ false = subst (λ z. lt z x ≡ false) same (order.irreflexive x) in
      (
        inr same,
        rw here (select_where-kept (lt c) xs (subst (λ z. All (λ y. lt z y ≡ true) xs) same s.0)),
      )
  page_end c x (suc n) [] s e =
      let same : x ≡ c = some-injective x c e in
      let here : lt c x ≡ false = subst (λ z. lt z x ≡ false) same (order.irreflexive x) in
      (inr same, rw here refl)
  page_end c x (suc n) (y ∷ ys) s e =
      let (at, rest) = page_end c y n ys s.1 e in
      let before : lt x c ≡ true = elim at [
        | inl t ↦ order.transitive x y c s.0.0 t
        | inr t ↦ subst (λ z. lt x z ≡ true) t s.0.0
      ] in
      (inl before, rw (order.asymmetric x c before) rest)

  -- The rows after the last one of a page are those that the page leaves.
  pub select-after :
      (c : A) (n : ℕ) (xs : List A)
      → Sorted lt xs
      → last (take n xs) ≡ some c
      → select_where (lt c) xs ≡ drop n xs
  select-after c zero xs s e = cc
  select-after c (suc n) [] s e = cc
  select-after c (suc n) (x ∷ xs) s e = (page_end c x n xs s e).1
