-- ===== src/Guest/Fingerprints.antt =====
-- The fingerprints of a guest's host keys are read as the script lists them.
use text.Mathlib.Text.{◌==◌ as str_eq}
use text.Mathlib.TextEquality.{eq_iff}
use text.Mathlib.TextLemmas.{nil-append, cons-append}
use Prim.Native.Char.{code}
use Prim.Native.String.{◌++◌ as append}
use proxmox_manager.Base.{
  ℕ, String, ◌≡◌, refl, sym, ap, ◌∙◌, inl, inr, false, none, some, List, [], ◌∷◌, ◌++◌, map, ◌==◌,
  Bool-cases, cut_at, split_at, All, append_assoc as list_assoc, append-nil as list_nil,
}
use proxmox_manager.Guest.{put, put_entry, put_entries, fingerprints_of}

-- the character does not occur
abbrev pub Lacks : ℕ → String → Type 0
Lacks sep String.[] = Unit
Lacks sep (String.◌∷◌ c s) = ((code c == sep) ≡ false) × Lacks sep s

-- an entry of the script's list, `name:fingerprint`, and the list with commas between
abbrev pub entry : String × String → String
entry (k, fp) = append k (String.◌∷◌ ":" fp)

abbrev pub listed : List (String × String) → String
listed [] = ""
listed (e ∷ []) = entry e
listed (e ∷ d ∷ es) = append (entry e) (String.◌∷◌ "," (listed (d ∷ es)))

cut_at-append :
    (s t : String) → Lacks b':' s → cut_at b':' (append s (String.◌∷◌ ":" t)) ≡ some (s, t)
unfolding cut_at
cut_at-append String.[] t h = rw (nil-append (String.◌∷◌ ":" t)) refl
cut_at-append (String.◌∷◌ c s) t (h, hs) =
    rw (cons-append c s (String.◌∷◌ ":" t)) (rw h (rw (cut_at-append s t hs) refl))

split_at-append :
    (s t : String)
    → Lacks b',' s
    → split_at b',' (append s (String.◌∷◌ "," t)) ≡ s ∷ split_at b',' t
unfolding split_at
split_at-append String.[] t h = rw (nil-append (String.◌∷◌ "," t)) refl
split_at-append (String.◌∷◌ c s) t (h, hs) =
    rw (cons-append c s (String.◌∷◌ "," t)) (rw h (rw (split_at-append s t hs) refl))

split_at-single : (s : String) → Lacks b',' s → split_at b',' s ≡ s ∷ []
unfolding split_at
split_at-single String.[] h = refl
split_at-single (String.◌∷◌ c s) (h, hs) = rw h (rw (split_at-single s hs) refl)

Lacks-append : (sep : ℕ) (s t : String) → Lacks sep s → Lacks sep t → Lacks sep (append s t)
Lacks-append sep String.[] t h k = rw (nil-append t) k
Lacks-append sep (String.◌∷◌ c s) t (h, hs) k =
    rw (cons-append c s t) (h, Lacks-append sep s t hs k)

-- a name and a fingerprint that the list can hold
pub record IsEntry (e : String × String) : Type 0 where
  pub name_colon : Lacks b':' e.0
  pub name_comma : Lacks b',' e.0
  pub value_comma : Lacks b',' e.1
  pub name_given : str_eq e.0 "" ≡ false
  pub value_given : str_eq e.1 "" ≡ false

-- each name is another than those before
abbrev pub Fresh : String → List (String × String) → Type 0
Fresh key m = All (λ e. str_eq e.0 key ≡ false) m

abbrev pub New : List (String × String) → List (String × String) → Type 0
New m [] = Unit
New m (e ∷ es) = Fresh e.0 m × New (m ++ e ∷ []) es

entry-Lacks : (e : String × String) → IsEntry e → Lacks b',' (entry e)
entry-Lacks (k, fp) v = Lacks-append b',' k (String.◌∷◌ ":" fp) v.name_comma (refl, v.value_comma)

split_at-listed :
    (e : String × String) (es : List (String × String))
    → All IsEntry (e ∷ es)
    → split_at b',' (listed (e ∷ es)) ≡ map entry (e ∷ es)
split_at-listed e [] (v, vs) = split_at-single (entry e) (entry-Lacks e v)
split_at-listed e (d ∷ es) (v, vs) =
    split_at-append (entry e) (listed (d ∷ es)) (entry-Lacks e v)
    ∙ ap (λ parts. entry e ∷ parts) (split_at-listed d es vs)

put_new : (k fp : String) (m : List (String × String)) → Fresh k m → put k fp m ≡ m ++ (k, fp) ∷ []
unfolding put
put_new k fp [] h = refl
put_new k fp ((j, f) ∷ m) (h, hs) = rw h (ap (λ rest. (j, f) ∷ rest) (put_new k fp m hs))

put_entry-entry :
    (e : String × String) (m : List (String × String))
    → IsEntry e
    → Fresh e.0 m
    → put_entry (cut_at b':' (entry e)) m ≡ m ++ e ∷ []
put_entry-entry (k, fp) m v h =
    rw (cut_at-append k fp v.name_colon) (rw v.name_given (rw v.value_given (put_new k fp m h)))

put_entries-entries :
    (es m : List (String × String))
    → All IsEntry es
    → New m es
    → put_entries (map entry es) m ≡ m ++ es
unfolding put_entries
put_entries-entries [] m vs n = sym (list_nil m)
put_entries-entries (e ∷ es) m (v, vs) (h, n) =
    ap (put_entries (map entry es)) (put_entry-entry e m v h)
    ∙ (put_entries-entries es (m ++ e ∷ []) vs n ∙ list_assoc m (e ∷ []) es)

listed-nonempty :
    (e : String × String) (es : List (String × String))
    → All IsEntry (e ∷ es)
    → str_eq (listed (e ∷ es)) "" ≡ false
unfolding split_at cut_at
listed-nonempty e es vs = elim (Bool-cases (str_eq (listed (e ∷ es)) "")) [
  | inr f ↦ f
  | inl t ↦
      let whole : map entry (e ∷ es) ≡ "" ∷ [] =
        sym (split_at-listed e es vs) ∙ ap (split_at b',') ((eq_iff _ _).0 t) in
      let first : some (e.0, e.1) ≡ none =
        sym (cut_at-append e.0 e.1 vs.0.name_colon) ∙ ap (cut_at b':') (head_eq whole) in
      cc first
]
  where
    head_eq : {s : String} {ss : List String} → s ∷ ss ≡ "" ∷ [] → s ≡ ""
    head_eq p = cc p

-- The list of names and fingerprints that the script prints is read back as it was, where no name holds
-- a colon or a comma, no fingerprint a comma, none is empty, and no name stands twice.
pub fingerprints_of-listed :
    (es : List (String × String)) → All IsEntry es → New [] es → fingerprints_of (listed es) ≡ es
unfolding fingerprints_of
fingerprints_of-listed [] vs n = refl
fingerprints_of-listed (e ∷ es) vs n =
    rw (listed-nonempty e es vs)
      (rw (split_at-listed e es vs) (put_entries-entries (e ∷ es) [] vs n))
