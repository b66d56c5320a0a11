-- ===== src/Validation/Digits.antt =====
-- The forms of a machine id and of a boot id, without the loops (isLowerHex and isUUIDLike of
-- rules_identity_network.go).
use text.Mathlib.Text.{◌==◌ as str_eq}
use Prim.Native.String
use proxmox_manager.Base.{
  ℕ, zero, suc, String, ◌+◌, ◌≤◌, ◌≡◌, ◌≢◌, ◌↔◌, ◌⊎◌, refl, sym, subst, inl, inr, true, not, ◌||◌,
  List, [], ◌∷◌, arith, Bool-cases, &&-eq-true, ==_iff, ◌==◌, All, all, all-All, All-all, All-intro,
  All-In,
}
use proxmox_manager.Validation.Checks.{
  codes, is_digit_or_lower, is_hex_digit, uuid_char, uuid_loop, is_lower_hex, is_uuid_like,
}
use proxmox_manager.Validation.Conditions.{differs}

-- '0' to '9', or 'a' to 'f'
abbrev pub IsLowerHexDigit : ℕ → Type 0
IsLowerHexDigit c = (48 ≤ c × c ≤ 57) ⊎ (97 ≤ c × c ≤ 102)

-- or 'A' to 'F'
abbrev pub IsHexDigit : ℕ → Type 0
IsHexDigit c = IsLowerHexDigit c ⊎ (65 ≤ c × c ≤ 70)

abbrev pub IsLowerHex : String → Type 0
IsLowerHex s = (s ≢ "") × All IsLowerHexDigit (codes s)

-- c stands at the place i
abbrev pub At : ℕ → ℕ → List ℕ → Type 0
At i c [] = ⊥
At zero c (x ∷ xs) = c ≡ x
At (suc i) c (x ∷ xs) = At i c xs

abbrev pub IsDashPlace : ℕ → Type 0
IsDashPlace i = (i ≡ 8) ⊎ (i ≡ 13) ⊎ (i ≡ 18) ⊎ (i ≡ 23)

-- a '-' at the places of dashes, a digit at all others
abbrev pub Fits : ℕ → ℕ → Type 0
Fits i c = (IsDashPlace i × (c ≡ 45)) ⊎ ((¬ IsDashPlace i) × IsHexDigit c)

abbrev pub IsUuid : String → Type 0
IsUuid s = (String.len s ≡ 36) × ((i c : ℕ) → At i c (codes s) → Fits i c)

lower_digit_iff : (c : ℕ) → (is_digit_or_lower c ≡ true) ↔ IsLowerHexDigit c
unfolding is_digit_or_lower
lower_digit_iff c = ground arith

digit_iff : (c : ℕ) → (is_hex_digit c ≡ true) ↔ IsHexDigit c
unfolding is_hex_digit is_digit_or_lower
digit_iff c = ground arith

pub is_lower_hex-IsLowerHex : (s : String) → (is_lower_hex s ≡ true) ↔ IsLowerHex s
unfolding is_lower_hex
is_lower_hex-IsLowerHex s = (
  λ h.
      let (some_text, digits) =
        &&-eq-true (not (str_eq s "")) (all is_digit_or_lower (codes s)) h in
      (
        (differs s "").0 some_text,
        All-intro _ (codes s) λ c m.
            (lower_digit_iff c).0
              (All-In _ (codes s) (all-All is_digit_or_lower (codes s) digits) m),
      ),
  λ h. rw ((differs s "").1 h.0) (
      All-all is_digit_or_lower (codes s)
        (All-intro _ (codes s) λ c m. (lower_digit_iff c).1 (All-In _ (codes s) h.1 m))),
)

place_cases : (i : ℕ) → ((i == 8 || i == 13 || i == 18 || i == 23) ≡ true) ↔ IsDashPlace i
place_cases i = ground arith

uuid_char-Fits : (i c : ℕ) → (uuid_char i c ≡ true) ↔ Fits i c
uuid_char-Fits i c = elim (Bool-cases (i == 8 || i == 13 || i == 18 || i == 23)) [
  | inl e ↦ rw e (
    λ h. inl ((place_cases i).0 e, (==_iff c 45).0 h),
    λ h. elim h [ inl (_, d) ↦ (==_iff c 45).1 d | inr (n, _) ↦ absurd (n ((place_cases i).0 e)) ],
  )
  | inr e ↦ rw e (
    λ h. inr (λ p. cc (e, (place_cases i).1 p), (digit_iff c).0 h),
    λ h. elim h [ inl (p, _) ↦ cc (e, (place_cases i).1 p) | inr (_, d) ↦ (digit_iff c).1 d ],
  )
]

loop-Fits : (k : ℕ) (cs : List ℕ) → uuid_loop k cs ≡ true → (i c : ℕ) → At i c cs → Fits (k + i) c
unfolding uuid_loop
loop-Fits k [] h i c m = elim m [ ]
loop-Fits k (x ∷ cs) h zero c m =
    let (first, rest) = &&-eq-true (uuid_char k x) (uuid_loop (suc k) cs) h in
    let here : k ≡ k + 0 = omega arith in
    subst (λ n. Fits n c) here (subst (λ d. Fits k d) (sym m) ((uuid_char-Fits k x).0 first))
loop-Fits k (x ∷ cs) h (suc i) c m =
    let (first, rest) = &&-eq-true (uuid_char k x) (uuid_loop (suc k) cs) h in
    let same : suc k + i ≡ k + suc i = omega arith in
    subst (λ n. Fits n c) same (loop-Fits (suc k) cs rest i c m)

Fits-loop : (k : ℕ) (cs : List ℕ) → ((i c : ℕ) → At i c cs → Fits (k + i) c) → uuid_loop k cs ≡ true
unfolding uuid_loop
Fits-loop k [] h = refl
Fits-loop k (x ∷ cs) h =
    let here : k + 0 ≡ k = omega arith in
    rw ((uuid_char-Fits k x).1 (subst (λ n. Fits n x) here (h zero x refl))) (
      Fits-loop (suc k) cs λ i c m.
        let same : k + suc i ≡ suc k + i = omega arith in
        subst (λ n. Fits n c) same (h (suc i) c m))

pub is_uuid_like-IsUuid : (s : String) → (is_uuid_like s ≡ true) ↔ IsUuid s
unfolding is_uuid_like
is_uuid_like-IsUuid s = (
  λ h.
      let (long, fits) = &&-eq-true (String.len s == 36) (uuid_loop 0 (codes s)) h in
      (
        (==_iff (String.len s) 36).0 long,
        λ i c m. subst (λ n. Fits n c) (zero_add i) (loop-Fits 0 (codes s) fits i c m),
      ),
  λ h.
      rw ((==_iff (String.len s) 36).1 h.0)
        (Fits-loop 0 (codes s) λ i c m. subst (λ n. Fits n c) (sym (zero_add i)) (h.1 i c m)),
)
  where
    zero_add : (i : ℕ) → 0 + i ≡ i
    zero_add i = omega arith
