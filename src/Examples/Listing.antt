-- ===== src/Examples/Listing.antt =====
-- The pages of the sample's jobs, one job to a page.
use text.Mathlib.Text.{◌==◌ as str_eq}
use text.Mathlib.TextEquality.{eq_iff}
use proxmox_manager.Base.{
  ℕ, zero, suc, String, ◌-◌, ◌≡◌, refl, ap, inl, inr, true, false, Bool-cases, none, some,
  select_where, sort_by, insert, arith,
}
use proxmox_manager.Jobs.Listing.{ListFilter, fits, newer}
use proxmox_manager.Api.Pages.{CursorText, page_limit}
use proxmox_manager.Api.Pages.Cursors.{no_bar, IsCursorText}
use proxmox_manager.Api.Pages.Walk.{walk, walk_lem}
use proxmox_manager.Examples.Sample.{sample}

-- a number in unary
abbrev unary : ℕ → String
unary zero = ""
unary (suc n) = String.◌∷◌ "n" (unary n)

abbrev count_of : String → ℕ
count_of String.[] = 0
count_of (String.◌∷◌ c s) = suc (count_of s)

counted : (n : ℕ) → count_of (unary n) ≡ n
counted zero = refl
counted (suc n) = ap suc (counted n)

barless : (n : ℕ) → no_bar (unary n) ≡ true
barless zero = refl
barless (suc n) = barless n

nonempty : (n : ℕ) → str_eq (unary (suc n)) "" ≡ false
nonempty n = elim (Bool-cases (str_eq (unary (suc n)) "")) [
  | inr f ↦ f
  | inl t ↦
      let bad : suc (count_of (unary n)) ≡ 0 = ap count_of ((eq_iff (unary (suc n)) "").0 t) in
      absurd (omega arith)
]

abbrev plain : CursorText
plain = record {
  encode = λ s. s;
  decode = λ s. some s;
  format_time = unary;
  parse_time = λ s. some (count_of s);
  id_text = λ n. unary (suc n);
  id_of = λ s. count_of s - 1;
  atoi = λ _. some 1;
}

plain-IsCursorText : IsCursorText plain
plain-IsCursorText = record {
  decodes = λ s. refl;
  nonempty = λ s h. h;
  barless = barless;
  parses = λ t. ap some (counted t);
  named = nonempty;
  reads = λ n. let c : count_of (unary n) ≡ n = counted n in omega arith;
}

abbrev everything : ListFilter
everything = record { state = none; operation = none; instance_id = 0; q = "" }

walk_lem_example :
    walk plain (λ _ _. true) everything "1" sample 3 ""
    ≡ sort_by newer (select_where (fits (λ _ _. true) everything) sample.jobs)
unfolding page_limit fits select_where sort_by insert
walk_lem_example =
    walk_lem plain (λ _ _. true) everything "1" sample ((refl, tt), (tt, tt)) 1 refl
      plain-IsCursorText (refl, (refl, tt)) 3 (omega arith)
