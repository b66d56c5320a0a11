-- ===== src/Templates/Active.antt =====
-- Promotion, and the one ACTIVE template of a family.
pub mod Promoted
use text.Mathlib.TextEquality.{eq_iff}
use proxmox_manager.Base.{
  ℕ, ◌≡◌, ◌≢◌, refl, sym, ◌∙◌, subst, ◌⊎◌, inl, inr, true, false, ◌&&◌, some, none, List, arith, In,
  Unique, In-update_where, same_row, find-update_where, find-eq-some, Bool-cases, Option-cases,
  ==_refl, ==_iff, find, update_where, if◌then◌else◌, Result, ok, err, not_found,
  invalid_transition,
}
use proxmox_manager.Domain.{Template, TemplateState, deprecated, is_active}
use proxmox_manager.Store.{Db, with_tx}
use proxmox_manager.Templates
use proxmox_manager.Templates.{has_id, is_valid_transition, other_active, in_state, demoted}

abbrev pub template_key : Template → ℕ
template_key t = t.id

-- two ACTIVE templates of one family are one
abbrev pub OneActive : List Template → Type 0
OneActive ts =
    (x y : Template)
    → In x ts
    → In y ts
    → is_active x.state ≡ true
    → is_active y.state ≡ true
    → x.family ≡ y.family
    → x.id ≡ y.id

abbrev pub after_promote : ℕ → TemplateState → Template → Db → Db
after_promote id target current db = record db {
  templates = update_where (has_id id) (in_state target) (demoted target current db.templates);
}

-- The state of a row after the promotion of `current`, the row with the key id.
demoted_row :
    (target : TemplateState) (current : Template) (ts : List Template) (y : Template)
    → In y (demoted target current ts)
    → (x : Template) × In x ts
      × (y ≡ (
          if is_active target && other_active current.family current.id x
          then in_state deprecated x
          else x))
unfolding demoted
demoted_row target current ts y m = elim (Bool-cases (is_active target)) [
  | inl t ↦ rw t (
      In-update_where (other_active current.family current.id) (in_state deprecated) ts y
        (rw t at m))
  | inr t ↦ rw t (y, (rw t at m), refl)
]

-- An ACTIVE row after the promotion: the promoted one, or one that was ACTIVE before and that the
-- promotion did not demote.
record Came (target : TemplateState) (current x y : Template) : Type 0 where
  same_id : y.id ≡ x.id
  same_family : y.family ≡ x.family
  how :
      (y.id ≡ current.id) × (is_active target ≡ true) × (y.family ≡ current.family)
      ⊎ (is_active x.state ≡ true) × ((is_active target ≡ false) ⊎ (x.family ≢ current.family))

row_cases :
    (target : TemplateState) (current x z y : Template)
    → (has_id current.id x ≡ true → x ≡ current)
    → z ≡ (
        if is_active target && other_active current.family current.id x
        then in_state deprecated x
        else x)
    → y ≡ (if has_id current.id z then in_state target z else z)
    → is_active y.state ≡ true
    → Came target current x y
unfolding other_active
row_cases target current x z y same ez ey act = ground (arith, eq_iff x.family current.family)

promoted_row :
    (target : TemplateState) (current : Template) (ts : List Template)
    → Unique template_key ts
    → find (has_id current.id) ts ≡ some current
    → (y : Template)
    → In y (update_where (has_id current.id) (in_state target) (demoted target current ts))
    → is_active y.state ≡ true
    → (x : Template) × In x ts × Came target current x y
promoted_row target current ts u e y m act =
    let (z, k, ez) =
      In-update_where (has_id current.id) (in_state target) (demoted target current ts) y m in
    let (x, l, ex) = demoted_row target current ts z k in
    (
      x,
      l,
      row_cases target current x z y
          (λ t. same_row template_key ts current.id u e l ((==_iff x.id current.id).0 t)) ex ez act,
    )

OneActive-promoted :
    (target : TemplateState) (current : Template) (ts : List Template)
    → Unique template_key ts
    → find (has_id current.id) ts ≡ some current
    → OneActive ts
    → OneActive (update_where (has_id current.id) (in_state target) (demoted target current ts))
OneActive-promoted target current ts u e one a b ma mb aa ab f =
    let (x, mx, cx) = promoted_row target current ts u e a ma aa in
    let (y, my, cy) = promoted_row target current ts u e b mb ab in both x y cx cy (one x y mx my)
  where
    both :
        (x y : Template)
        → Came target current x a
        → Came target current y b
        → (is_active x.state ≡ true → is_active y.state ≡ true → x.family ≡ y.family → x.id ≡ y.id)
        → a.id ≡ b.id
    both x y cx cy h = ground (arith, h)

not-other_self : (current : Template) → other_active current.family current.id current ≡ false
unfolding other_active
not-other_self current = ground arith

find-demoted :
    (target : TemplateState) (current : Template) (ts : List Template)
    → find (has_id current.id) ts ≡ some current
    → find (has_id current.id) (demoted target current ts) ≡ some current
unfolding demoted
find-demoted target current ts e = elim (Bool-cases (is_active target)) [
  | inl t ↦ rw t (
      find-update_where (other_active current.family current.id) (has_id current.id)
        (in_state deprecated) (λ x. refl) ts
      ∙ rw (e, not-other_self current) refl)
  | inr t ↦ rw t e
]

find-promoted :
    (target : TemplateState) (current : Template) (ts : List Template)
    → find (has_id current.id) ts ≡ some current
    → find
        (has_id current.id)
        (update_where (has_id current.id) (in_state target) (demoted target current ts))
      ≡ some (in_state target current)
find-promoted target current ts e =
    find-update_where (has_id current.id) (has_id current.id) (in_state target) (λ x. refl)
      (demoted target current ts)
    ∙ rw (find-demoted target current ts e, ==_refl current.id) refl

pub found-id :
    (id : ℕ) (ts : List Template) (current : Template)
    → find (has_id id) ts ≡ some current
    → current.id ≡ id
found-id id ts current p = (==_iff current.id id).0 (find-eq-some (has_id id) ts current p)

found_after :
    (id : ℕ) (target : TemplateState) (db : Db) (current : Template)
    → find (has_id id) db.templates ≡ some current
    → find (has_id id) (after_promote id target current db).templates
      ≡ some (in_state target current)
found_after id target db current p =
    let same : current.id ≡ id = found-id id db.templates current p in
    subst
      (λ k.
        find (has_id k) (after_promote k target current db).templates
        ≡ some (in_state target current))
      same
      (find-promoted target current db.templates
        (subst (λ k. find (has_id k) db.templates ≡ some current) (sym same) p))

-- What a call of Promote does, by the row with the id.
pub data Promotion (id : ℕ) (target : TemplateState) (db : Db) : Result Template × Db → Type 0 where
  missing : find (has_id id) db.templates ≡ none → Promotion id target db (err not_found, db)
  refused :
      (current : Template)
      → find (has_id id) db.templates ≡ some current
      → is_valid_transition current.state target ≡ false
      → Promotion id target db (err invalid_transition, db)
  done :
      (current : Template)
      → find (has_id id) db.templates ≡ some current
      → is_valid_transition current.state target ≡ true
      → Promotion id target db (ok (in_state target current), after_promote id target current db)

pub promote-Promotion :
    (id : ℕ) (target : TemplateState) (db : Db)
    → Promotion id target db (Templates.promote id target db)
unfolding Templates.promote with_tx
promote-Promotion id target db = elim (Option-cases (find (has_id id) db.templates)) [
  | inl p ↦ rw p (missing p)
  | inr (current, p) ↦ elim (Bool-cases (is_valid_transition current.state target)) [
    | inl v ↦ rw p (rw v (rw (found_after id target db current p) (done current p v)))
    | inr v ↦ rw p (rw v (refused current p v))
  ]
]

Promotion-OneActive :
    (id : ℕ) (target : TemplateState) (db : Db)
    → Unique template_key db.templates
    → OneActive db.templates
    → (o : Result Template × Db) → Promotion id target db o
    → OneActive o.1.templates
Promotion-OneActive id target db u one _ (missing p) = one
Promotion-OneActive id target db u one _ (refused current p v) = one
Promotion-OneActive id target db u one _ (done current p v) =
    let same : current.id ≡ id = found-id id db.templates current p in
    subst (λ k. OneActive (after_promote k target current db).templates) same
      (OneActive-promoted target current db.templates u
        (subst (λ k. find (has_id k) db.templates ≡ some current) (sym same) p) one)

-- Where template ids are unique, Promote keeps at most one ACTIVE template in each family.
pub promote-OneActive :
    (id : ℕ) (target : TemplateState) (db : Db)
    → Unique template_key db.templates
    → OneActive db.templates
    → OneActive (Templates.promote id target db).1.templates
promote-OneActive id target db u one =
    Promotion-OneActive id target db u one (Templates.promote id target db)
      (promote-Promotion id target db)
