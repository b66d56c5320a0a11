-- ===== src/Base/Keys.antt =====
-- Primary keys: rows that are told apart by a number.
use mathlib.Core.Path.{◌≡◌, refl, sym, ap, ◌∙◌, subst}
use mathlib.Core.Logic.{◌⊎◌, inl, inr}
use mathlib.Core.Bool.{Bool, true, false}
use mathlib.Core.Option.{none, some, some-injective, some-ne-none}
use mathlib.Core.List.{List, [], ◌∷◌, ◌++◌}
use Prim.Native.Nat.{ℕ}
use native.Mathlib.Omega.{arith}
use proxmox_manager.Base.Tests.{◌==◌, if◌then◌else◌, ==_iff, Bool-cases, &&-eq-true}
use proxmox_manager.Base.Tables.{All, update_where, select_where, count_where, find, any, all}

-- a is one of the rows
abbrev pub In : {A : Type 0} → A → List A → Type 0
In a [] = ⊥
In a (x ∷ xs) = (a ≡ x) ⊎ In a xs

-- no two rows have the same key
abbrev pub Unique : {A : Type 0} → (A → ℕ) → List A → Type 0
Unique key [] = Unit
Unique key (x ∷ xs) = All (λ y. (key y == key x) ≡ false) xs × Unique key xs

-- the rows of two states of a table, in pairs
abbrev pub Rowwise : {A : Type 0} → (A → A → Type 0) → List A → List A → Type 0
Rowwise R [] [] = Unit
Rowwise R [] (y ∷ ys) = ⊥
Rowwise R (x ∷ xs) [] = ⊥
Rowwise R (x ∷ xs) (y ∷ ys) = R x y × Rowwise R xs ys

module _ {A : Type 0} where
  pub Rowwise-update_where :
      (R : A → A → Type 0) (p : A → Bool) (f : A → A)
      → ((x : A) → R x (if p x then f x else x))
      → (xs : List A) → Rowwise R xs (update_where p f xs)
  unfolding update_where
  Rowwise-update_where R p f h [] = tt
  Rowwise-update_where R p f h (x ∷ xs) = (h x, Rowwise-update_where R p f h xs)

  pub Rowwise-refl : (R : A → A → Type 0) → ((x : A) → R x x) → (xs : List A) → Rowwise R xs xs
  Rowwise-refl R h [] = tt
  Rowwise-refl R h (x ∷ xs) = (h x, Rowwise-refl R h xs)

  pub count_where-In :
      (p : A → Bool) (xs : List A) (x : A) → In x xs → p x ≡ true → (count_where p xs == 0) ≡ false
  unfolding count_where
  count_where-In p [] x m h = elim m [ ]
  count_where-In p (y ∷ xs) x (inl e) h = let hit : p y ≡ true = rw e at h in rw hit (ground arith)
  count_where-In p (y ∷ xs) x (inr m) h = elim (Bool-cases (p y)) [
    | inl e ↦ rw e (ground arith)
    | inr e ↦ rw e (count_where-In p xs x m h)
  ]

  pub count_where-exists :
      (p : A → Bool) (xs : List A)
      → (count_where p xs == 0) ≡ false
      → (x : A) × In x xs × (p x ≡ true)
  unfolding count_where
  count_where-exists p [] h = cc h
  count_where-exists p (x ∷ xs) h = elim (Bool-cases (p x)) [
    | inl e ↦ (x, inl refl, e)
    | inr e ↦ let (y, m, t) = count_where-exists p xs (rw e at h) in (y, inr m, t)
  ]

  pub All-In : (P : A → Type 0) (xs : List A) {a : A} → All P xs → In a xs → P a
  All-In P [] h m = elim m [ ]
  All-In P (x ∷ xs) h (inl e) = subst P (sym e) h.0
  All-In P (x ∷ xs) h (inr m) = All-In P xs h.1 m

  In-kept : (a x : A) (xs ys : List A) → In a (x ∷ ys) → (In a ys → In a xs) → In a (x ∷ xs)
  In-kept a x xs ys (inl e) f = inl e
  In-kept a x xs ys (inr m) f = inr (f m)

  pub In-select_where : (p : A → Bool) (xs : List A) (a : A) → In a (select_where p xs) → In a xs
  unfolding select_where
  In-select_where p [] a m = m
  In-select_where p (x ∷ xs) a m = elim (Bool-cases (p x)) [
    | inl t ↦ In-kept a x xs _ (rw t at m) (In-select_where p xs a)
    | inr t ↦ inr (In-select_where p xs a (rw t at m))
  ]

  pub All-select_where : (p : A → Bool) (xs : List A) → All (λ x. p x ≡ true) (select_where p xs)
  unfolding select_where
  All-select_where p [] = tt
  All-select_where p (x ∷ xs) = elim (Bool-cases (p x)) [
    | inl e ↦ rw e (e, All-select_where p xs)
    | inr e ↦ rw e (All-select_where p xs)
  ]

  module _ (key : A → ℕ) where
    -- The row with a given key is the one that a lookup finds.
    pub find-Unique :
        (xs : List A) {a : A} (k : ℕ)
        → Unique key xs
        → In a xs
        → key a ≡ k
        → find (λ x. key x == k) xs ≡ some a
    unfolding find
    find-Unique [] k u m e = elim m [ ]
    find-Unique (x ∷ xs) {a} k u (inl p) e =
        let t : (key x == k) ≡ true = (==_iff (key x) k).1 (ap key (sym p) ∙ e) in
        rw t (ap some (sym p))
    find-Unique (x ∷ xs) {a} k u (inr m) e =
        let d : (key a == key x) ≡ false = All-In _ xs u.0 m in
        let t : (key x == k) ≡ false = ground (arith, e) in rw t (find-Unique xs k u.1 m e)

    pub Unique-update_where :
        (p : A → Bool) (f : A → A)
        → ((x : A) → key (f x) ≡ key x)
        → (xs : List A) → Unique key xs
        → Unique key (update_where p f xs)
    unfolding update_where
    Unique-update_where p f keep [] u = tt
    Unique-update_where p f keep (x ∷ xs) u =
        (rw same (others xs u.0), Unique-update_where p f keep xs u.1)
      where
        same_at : (y : A) → key (if p y then f y else y) ≡ key y
        same_at y = elim (Bool-cases (p y)) [ inl e ↦ rw e (keep y) | inr e ↦ rw e ]

        same : key (if p x then f x else x) ≡ key x
        same = same_at x

        others :
            (ys : List A)
            → All (λ y. (key y == key x) ≡ false) ys
            → All (λ y. (key y == key x) ≡ false) (update_where p f ys)
        others [] h = tt
        others (y ∷ ys) h = (rw (same_at y) h.0, others ys h.1)

module _ {A : Type 0} where
  pub All-intro : (P : A → Type 0) (xs : List A) → ((a : A) → In a xs → P a) → All P xs
  All-intro P [] f = tt
  All-intro P (x ∷ xs) f = (f x (inl refl), All-intro P xs (λ a m. f a (inr m)))

  pub In-find : (p : A → Bool) (xs : List A) (a : A) → find p xs ≡ some a → In a xs
  unfolding find
  In-find p [] a e = cc
  In-find p (x ∷ xs) a e = elim (Bool-cases (p x)) [
    | inl t ↦ inl (sym (some-injective x a (rw t at e)))
    | inr t ↦ inr (In-find p xs a (rw t at e))
  ]

  -- Any row with the key of a row found is that row.
  pub same_row :
      (key : A → ℕ) (xs : List A) (k : ℕ) {a b : A}
      → Unique key xs
      → find (λ x. key x == k) xs ≡ some a
      → In b xs
      → key b ≡ k
      → b ≡ a
  same_row key xs k {a} {b} u e m eq = some-injective b a (sym (find-Unique key xs k u m eq) ∙ e)

  pub count_where-none :
      (p : A → Bool) (xs : List A) → All (λ x. p x ≡ false) xs → count_where p xs ≡ 0
  unfolding count_where
  count_where-none p [] h = refl
  count_where-none p (x ∷ xs) h = rw h.0 (count_where-none p xs h.1)

  pub find-append :
      (p : A → Bool) (xs ys : List A) (a : A) → find p xs ≡ some a → find p (xs ++ ys) ≡ some a
  unfolding find
  find-append p [] ys a e = cc
  find-append p (x ∷ xs) ys a e = ground (arith, find-append p xs ys a)

module _ {A : Type 0} where
  pub In-selected :
      (p : A → Bool) (xs : List A) (a : A) → In a xs → p a ≡ true → In a (select_where p xs)
  unfolding select_where
  In-selected p [] a m t = m
  In-selected p (x ∷ xs) a (inl e) t = rw (subst (λ z. p z ≡ true) e t) (inl e)
  In-selected p (x ∷ xs) a (inr m) t = elim (Bool-cases (p x)) [
    | inl s ↦ rw s (inr (In-selected p xs a m t))
    | inr s ↦ rw s (In-selected p xs a m t)
  ]

  pub any-In : (t : A → Bool) (xs : List A) (a : A) → In a xs → t a ≡ true → any t xs ≡ true
  unfolding any
  any-In t [] a m e = elim m [ ]
  any-In t (x ∷ xs) a (inl p) e = rw (subst (λ z. t z ≡ true) p e)
  any-In t (x ∷ xs) a (inr m) e = ground (arith, any-In t xs a m e)

  pub any-none : (t : A → Bool) (xs : List A) → All (λ x. t x ≡ false) xs → any t xs ≡ false
  unfolding any
  any-none t [] h = refl
  any-none t (x ∷ xs) h = rw h.0 (any-none t xs h.1)

  -- Two UPDATEs whose WHEREs agree on every row.
  pub update_where-agree :
      (p q : A → Bool) (f : A → A) (xs : List A)
      → All (λ x. p x ≡ q x) xs
      → update_where p f xs ≡ update_where q f xs
  unfolding update_where
  update_where-agree p q f [] h = refl
  update_where-agree p q f (x ∷ xs) h = rw h.0 (rw (update_where-agree p q f xs h.1))

  -- two UPDATEs that do the same to each row
  pub update_where-same :
      (p q : A → Bool) (f g : A → A) (xs : List A)
      → All (λ x. (if p x then f x else x) ≡ (if q x then g x else x)) xs
      → update_where p f xs ≡ update_where q g xs
  unfolding update_where
  update_where-same p q f g [] h = refl
  update_where-same p q f g (x ∷ xs) h = rw h.0 (rw (update_where-same p q f g xs h.1))

  -- an UPDATE by the key of a row writes that row
  pub update_where-one :
      (key : A → ℕ) (xs : List A) (c : A) (f : A → A)
      → Unique key xs
      → In c xs
      → update_where (λ x. key x == key c) f xs ≡ update_where (λ x. key x == key c) (λ _. f c) xs
  update_where-one key xs c f u m =
      update_where-same _ _ f (λ _. f c) xs
        (All-intro _ xs λ x n. elim (Bool-cases (key x == key c)) [
          | inl e ↦
              let same : x ≡ c =
                same_row key xs (key c) u (find-Unique key xs (key c) u m refl) n
                  ((==_iff (key x) (key c)).0 e) in
              rw e (ap f same)
          | inr e ↦ rw e
        ])

  pub update_where-never : (f : A → A) (xs : List A) → update_where (λ x. false) f xs ≡ xs
  unfolding update_where
  update_where-never f [] = refl
  update_where-never f (x ∷ xs) = rw (update_where-never f xs)

module _ {A : Type 0} where
  -- Each row after an UPDATE comes from one before.
  pub In-update_where :
      (p : A → Bool) (f : A → A) (xs : List A) (y : A)
      → In y (update_where p f xs)
      → (x : A) × In x xs × (y ≡ (if p x then f x else x))
  unfolding update_where
  In-update_where p f [] y m = elim m [ ]
  In-update_where p f (x ∷ xs) y (inl e) = (x, inl refl, e)
  In-update_where p f (x ∷ xs) y (inr m) =
      let (z, k, e) = In-update_where p f xs y m in (z, inr k, e)

module _ {A : Type 0} where
  pub any-exists : (t : A → Bool) (xs : List A) → any t xs ≡ true → (a : A) × In a xs × (t a ≡ true)
  unfolding any
  any-exists t [] e = cc
  any-exists t (x ∷ xs) e = elim (Bool-cases (t x)) [
    | inl s ↦ (x, inl refl, s)
    | inr s ↦ let (a, m, p) = any-exists t xs (rw s at e) in (a, inr m, p)
  ]

  pub any-false : (t : A → Bool) (xs : List A) → any t xs ≡ false → All (λ x. t x ≡ false) xs
  unfolding any
  any-false t [] e = tt
  any-false t (x ∷ xs) e = elim (Bool-cases (t x)) [
    | inl s ↦ let bad : true ≡ false = rw s at e in cc bad
    | inr s ↦ (s, any-false t xs (rw s at e))
  ]

  pub all-All : (t : A → Bool) (xs : List A) → all t xs ≡ true → All (λ x. t x ≡ true) xs
  unfolding all
  all-All t [] e = tt
  all-All t (x ∷ xs) e = let (p, r) = &&-eq-true (t x) (all t xs) e in (p, all-All t xs r)

  pub All-all : (t : A → Bool) (xs : List A) → All (λ x. t x ≡ true) xs → all t xs ≡ true
  unfolding all
  All-all t [] h = refl
  All-all t (x ∷ xs) h = rw h.0 (All-all t xs h.1)

module _ {A : Type 0} where
  pub find-append-none :
      (p : A → Bool) (xs : List A) (a : A)
      → find p xs ≡ none
      → p a ≡ true
      → find p (xs ++ a ∷ []) ≡ some a
  unfolding find
  find-append-none p [] a e t = rw t refl
  find-append-none p (x ∷ xs) a e t = elim (Bool-cases (p x)) [
    | inl s ↦ absurd (some-ne-none x (rw s at e))
    | inr s ↦ rw s (find-append-none p xs a (rw s at e) t)
  ]

  -- a row that is found, and that another WHERE fits
  pub count_where-row :
      (p q : A → Bool) (xs : List A) (a : A)
      → find p xs ≡ some a
      → q a ≡ true
      → (count_where q xs == 0) ≡ false
  unfolding find count_where
  count_where-row p q [] a e h = cc
  count_where-row p q (x ∷ xs) a e h = ground (arith, count_where-row p q xs a)
