-- ===== src/Api/Pages/Cursors.antt =====
-- A cursor is read back as it was written.
use text.Mathlib.Text.{◌==◌ as str_eq}
use text.Mathlib.TextEquality.{eq_iff}
use text.Mathlib.TextLemmas.{nil-append, cons-append, append_assoc}
use Prim.Native.Char.{code}
use Prim.Native.String.{◌++◌ as append}
use mathlib.Core.Option.{some-ne-none}
use proxmox_manager.Base.{
  ℕ, String, ◌≡◌, refl, sym, ap, ◌∙◌, inl, inr, Bool, true, false, ◌&&◌, &&-eq-true, not, some, ◌≤◌,
  ltb, ◌==◌, Bool-cases, Option-cases, if◌then◌else◌, Result, ok, err, arith,
}
use proxmox_manager.Api.Pages.{CursorText, cut, encode_cursor, decode_cursor, page_limit}

abbrev pub no_bar : String → Bool
no_bar String.[] = true
no_bar (String.◌∷◌ c s) = not (code c == 124) && no_bar s

-- the documented behaviour of the packages that a cursor is written with
pub record IsCursorText (text : CursorText) : Type 0 where
  pub decodes : (s : String) → text.decode (text.encode s) ≡ some s
  pub nonempty : (s : String) → str_eq s "" ≡ false → str_eq (text.encode s) "" ≡ false
  pub barless : (t : ℕ) → no_bar (text.format_time t) ≡ true
  pub parses : (t : ℕ) → text.parse_time (text.format_time t) ≡ some t
  pub named : (n : ℕ) → str_eq (text.id_text n) "" ≡ false
  pub reads : (n : ℕ) → text.id_of (text.id_text n) ≡ n

bar-append : (id : String) → append "|" id ≡ String.◌∷◌ "|" id
bar-append id = cons-append "|" "" id ∙ ap (String.◌∷◌ "|") (nil-append id)

cut-append :
    (before id : String)
    → no_bar before ≡ true
    → cut (append before (String.◌∷◌ "|" id)) ≡ some (before, id)
unfolding cut
cut-append String.[] id h = rw (nil-append (String.◌∷◌ "|" id)) refl
cut-append (String.◌∷◌ c s) id h =
    let (other, rest) = &&-eq-true (not (code c == 124)) (no_bar s) h in
    let d : (code c == 124) ≡ false = ground arith in
    rw (cons-append c s (String.◌∷◌ "|" id)) (rw d (rw (cut-append s id rest) refl))

cut-raw :
    (before id : String)
    → no_bar before ≡ true
    → cut (append (append before "|") id) ≡ some (before, id)
cut-raw before id h =
    ap cut (append_assoc before "|" id ∙ ap (append before) (bar-append id))
    ∙ cut-append before id h

raw-nonempty :
    (before id : String) → no_bar before ≡ true → str_eq (append (append before "|") id) "" ≡ false
unfolding cut
raw-nonempty before id h = elim (Bool-cases (str_eq (append (append before "|") id) "")) [
  | inr f ↦ f
  | inl t ↦ absurd (
      some-ne-none (before, id)
        (sym (cut-raw before id h) ∙ ap cut ((eq_iff (append (append before "|") id) "").0 t)))
]

-- Where the packages that it is written with read back what they write, and the text of a time has
-- no "|": a cursor with an identifier that is not empty is decoded to the position it was made of.
pub decode_cursor-encode_cursor :
    (text : CursorText)
    → IsCursorText text
    → (after : ℕ) (after_id : String) → str_eq after_id "" ≡ false
    → (str_eq (encode_cursor text after after_id) "" ≡ false)
      × (decode_cursor text (encode_cursor text after after_id)
          ≡ ok (record { after = after; after_id = after_id }))
unfolding encode_cursor decode_cursor
decode_cursor-encode_cursor text laws after after_id named =
    let raw : String = append (append (text.format_time after) "|") after_id in
    let full : str_eq (text.encode raw) "" ≡ false =
      laws.nonempty raw (raw-nonempty (text.format_time after) after_id (laws.barless after)) in
    (
      full,
      rw full (
          rw (laws.decodes raw) (
            rw (cut-raw (text.format_time after) after_id (laws.barless after))
              (rw named (rw (laws.parses after) refl)))),
    )

-- A page has between 1 and 200 rows, whatever the query says.
pub page_limit-bounds :
    (text : CursorText) (raw : String) (n : ℕ) → page_limit text raw ≡ ok n → (1 ≤ n) × (n ≤ 200)
unfolding page_limit
page_limit-bounds text raw n e = elim (Bool-cases (str_eq raw "")) [
  | inl t ↦ let fifty : 50 ≡ n = ap (value n) (rw t at e) in (omega arith, omega arith)
  | inr t ↦ elim (Option-cases (text.atoi raw)) [
    | inl a ↦ let bad : Path (Result ℕ) _ (ok n) = rw a at (rw t at e) in cc bad
    | inr (m, a) ↦ elim (Bool-cases (m == 0)) [
      | inl z ↦ let bad : Path (Result ℕ) _ (ok n) = rw z at (rw a at (rw t at e)) in cc bad
      | inr z ↦
          let same : (if ltb 200 m then 200 else m) ≡ n =
            ap (value n) (rw z at (rw a at (rw t at e))) in
          (ground arith, ground arith)
    ]
  ]
]
  where
    value : ℕ → Result ℕ → ℕ
    value d (ok k) = k
    value d (err _) = d
