-- ===== src/Templates/Active/Promoted.antt =====
-- What a promotion does to each row of the templates.
use text.Mathlib.TextEquality.{eq_iff}
use text.Mathlib.Text.{◌==◌ as str_eq}
use proxmox_manager.Base.{
  ℕ, ◌≡◌, ◌≢◌, refl, sym, subst, ◌↔◌, ◌⊎◌, inl, inr, Bool, true, false, not, ◌&&◌, some, none, List,
  [], ◌∷◌, Rowwise, Bool-cases, &&-eq-true, ==_iff, ◌==◌, find, update_where, update_where-never,
  update_where-agree, All-intro, ◌∙◌, if◌then◌else◌, Result, ok, err, not_found, invalid_transition,
}
use proxmox_manager.Domain.{Template, TemplateState, is_active}
use proxmox_manager.Store.{Db}
use proxmox_manager.Templates
use proxmox_manager.Templates.{has_id, is_valid_transition, other_active, in_state, demoted}
use proxmox_manager.Templates.Active.{
  Promotion, missing, refused, done, promote-Promotion, after_promote, found-id,
}

-- DRAFT to CANDIDATE, CANDIDATE to ACTIVE, ACTIVE to DEPRECATED and back, and all but DRAFT to
-- REVOKED, from which nothing leads
abbrev pub Leads : TemplateState → TemplateState → Type 0
Leads TemplateState.draft t = t ≡ TemplateState.candidate
Leads TemplateState.candidate t = (t ≡ TemplateState.active) ⊎ (t ≡ TemplateState.revoked)
Leads TemplateState.active t = (t ≡ TemplateState.deprecated) ⊎ (t ≡ TemplateState.revoked)
Leads TemplateState.deprecated t = (t ≡ TemplateState.active) ⊎ (t ≡ TemplateState.revoked)
Leads TemplateState.revoked t = ⊥

is_valid_transition-Leads : (s t : TemplateState) → is_valid_transition s t ≡ true → Leads s t
unfolding is_valid_transition
is_valid_transition-Leads TemplateState.draft TemplateState.draft h = cc
is_valid_transition-Leads TemplateState.draft TemplateState.candidate h = refl
is_valid_transition-Leads TemplateState.draft TemplateState.active h = cc
is_valid_transition-Leads TemplateState.draft TemplateState.deprecated h = cc
is_valid_transition-Leads TemplateState.draft TemplateState.revoked h = cc
is_valid_transition-Leads TemplateState.candidate TemplateState.draft h = cc
is_valid_transition-Leads TemplateState.candidate TemplateState.candidate h = cc
is_valid_transition-Leads TemplateState.candidate TemplateState.active h = inl refl
is_valid_transition-Leads TemplateState.candidate TemplateState.deprecated h = cc
is_valid_transition-Leads TemplateState.candidate TemplateState.revoked h = inr refl
is_valid_transition-Leads TemplateState.active TemplateState.draft h = cc
is_valid_transition-Leads TemplateState.active TemplateState.candidate h = cc
is_valid_transition-Leads TemplateState.active TemplateState.active h = cc
is_valid_transition-Leads TemplateState.active TemplateState.deprecated h = inl refl
is_valid_transition-Leads TemplateState.active TemplateState.revoked h = inr refl
is_valid_transition-Leads TemplateState.deprecated TemplateState.draft h = cc
is_valid_transition-Leads TemplateState.deprecated TemplateState.candidate h = cc
is_valid_transition-Leads TemplateState.deprecated TemplateState.active h = inl refl
is_valid_transition-Leads TemplateState.deprecated TemplateState.deprecated h = cc
is_valid_transition-Leads TemplateState.deprecated TemplateState.revoked h = inr refl
is_valid_transition-Leads TemplateState.revoked TemplateState.draft h = cc
is_valid_transition-Leads TemplateState.revoked TemplateState.candidate h = cc
is_valid_transition-Leads TemplateState.revoked TemplateState.active h = cc
is_valid_transition-Leads TemplateState.revoked TemplateState.deprecated h = cc
is_valid_transition-Leads TemplateState.revoked TemplateState.revoked h = cc

Leads-is_valid_transition : (s t : TemplateState) → Leads s t → is_valid_transition s t ≡ true
unfolding is_valid_transition
Leads-is_valid_transition TemplateState.draft t h = rw h refl
Leads-is_valid_transition TemplateState.candidate t (inl h) = rw h refl
Leads-is_valid_transition TemplateState.candidate t (inr h) = rw h refl
Leads-is_valid_transition TemplateState.active t (inl h) = rw h refl
Leads-is_valid_transition TemplateState.active t (inr h) = rw h refl
Leads-is_valid_transition TemplateState.deprecated t (inl h) = rw h refl
Leads-is_valid_transition TemplateState.deprecated t (inr h) = rw h refl
Leads-is_valid_transition TemplateState.revoked t h = elim h [ ]

active_iff : (s : TemplateState) → (is_active s ≡ true) ↔ (s ≡ TemplateState.active)
active_iff TemplateState.active = (λ _. refl, λ _. refl)
active_iff TemplateState.draft = (λ h. cc, λ h. cc)
active_iff TemplateState.candidate = (λ h. cc, λ h. cc)
active_iff TemplateState.deprecated = (λ h. cc, λ h. cc)
active_iff TemplateState.revoked = (λ h. cc, λ h. cc)

-- another ACTIVE template of the family, where the target is ACTIVE
abbrev pub IsReplaced : TemplateState → Template → Template → Type 0
IsReplaced target current x =
    (x.id ≢ current.id)
    × (target ≡ TemplateState.active)
    × (x.state ≡ TemplateState.active)
    × (x.family ≡ current.family)

-- a row x, and what the promotion of `current` makes of it
abbrev pub AfterPromotion : TemplateState → Template → Template → Template → Type 0
AfterPromotion target current x y =
    (x.id ≡ current.id) × (y ≡ record x { state = target })
    ⊎ IsReplaced target current x × (y ≡ record x { state = TemplateState.deprecated })
    ⊎ (x.id ≢ current.id) × ((¬ IsReplaced target current x) × (y ≡ x))

abbrev replaced : TemplateState → Template → Template → Bool
replaced target current x = is_active target && other_active current.family current.id x

replaced_iff :
    (target : TemplateState) (current x : Template)
    → (replaced target current x ≡ true) ↔ IsReplaced target current x
unfolding other_active
replaced_iff target current x = (
  λ h.
      let (to_active, rest) =
        &&-eq-true (is_active target) (other_active current.family current.id x) h in
      let (front, other) =
        &&-eq-true (str_eq x.family current.family && is_active x.state) (not (x.id == current.id))
          rest in
      let (family, act) = &&-eq-true (str_eq x.family current.family) (is_active x.state) front in
      (
        λ e. cc (other, (==_iff x.id current.id).1 e),
        (active_iff target).0 to_active,
        (active_iff x.state).0 act,
        (eq_iff x.family current.family).0 family,
      ),
  λ h. elim (Bool-cases (x.id == current.id)) [
    | inl e ↦ absurd (h.0 ((==_iff x.id current.id).0 e))
    | inr e ↦
        rw ((active_iff target).1 h.1) (
          rw ((eq_iff x.family current.family).1 h.3) (rw ((active_iff x.state).1 h.2) (rw e refl)))
  ],
)

demoted-update :
    (target : TemplateState) (current : Template) (ts : List Template)
    → demoted target current ts
      ≡ update_where (replaced target current) (in_state TemplateState.deprecated) ts
unfolding demoted
demoted-update target current ts = elim (Bool-cases (is_active target)) [
  | inl e ↦ rw e (
      update_where-agree (other_active current.family current.id) (replaced target current) _ ts
        (All-intro _ ts λ x m. rw e refl))
  | inr e ↦ rw e (
      sym (
        update_where-agree (replaced target current) (λ _. false) _ ts
          (All-intro _ ts λ x m. rw e refl)
        ∙ update_where-never (in_state TemplateState.deprecated) ts))
]

row_after :
    (target : TemplateState) (current x : Template)
    → let z = if replaced target current x then in_state TemplateState.deprecated x else x in
      AfterPromotion target current x (if has_id current.id z then in_state target z else z)
row_after target current x = elim (Bool-cases (replaced target current x)) [
  | inl r ↦
      let h : IsReplaced target current x = (replaced_iff target current x).0 r in
      elim (Bool-cases (x.id == current.id)) [
        | inl e ↦ absurd (h.0 ((==_iff x.id current.id).0 e))
        | inr e ↦ rw r (rw e (inr (inl (h, refl))))
      ]
  | inr r ↦ elim (Bool-cases (x.id == current.id)) [
    | inl e ↦ rw r (rw e (inl ((==_iff x.id current.id).0 e, refl)))
    | inr e ↦ rw r (
        rw e (
          inr (
            inr (
              λ h. cc (e, (==_iff x.id current.id).1 h),
              (λ h. cc (r, (replaced_iff target current x).1 h), refl),
            ))))
  ]
]

rows_after :
    (target : TemplateState) (current : Template) (ts : List Template)
    → Rowwise (AfterPromotion target current) ts (
        update_where
          (has_id current.id)
          (in_state target)
          (update_where (replaced target current) (in_state TemplateState.deprecated) ts))
unfolding update_where
rows_after target current [] = tt
rows_after target current (x ∷ ts) = (row_after target current x, rows_after target current ts)

-- What a call of Promote does, by the row with the id.
pub data Promoted (id : ℕ) (target : TemplateState) (db : Db) : Result Template × Db → Type 0 where
  absent : find (λ t. t.id == id) db.templates ≡ none → Promoted id target db (err not_found, db)
  forbidden :
      (current : Template)
      → find (λ t. t.id == id) db.templates ≡ some current
      → ¬ Leads current.state target
      → Promoted id target db (err invalid_transition, db)
  promoted :
      (current : Template) (templates : List Template)
      → find (λ t. t.id == id) db.templates ≡ some current
      → Leads current.state target
      → Rowwise (AfterPromotion target current) db.templates templates
      → Promoted id target db
          (ok (record current { state = target }), record db { templates = templates })

-- Promote reports ErrNotFound where no template has the id, and ErrInvalidTransition where the
-- template's state does not lead to the target, with nothing changed in either case. Otherwise it
-- puts the template in the target state, and where the target is ACTIVE every other ACTIVE
-- template of the family in DEPRECATED, changes no other row, and returns the promoted template.
pub promote_lem :
    (id : ℕ) (target : TemplateState) (db : Db)
    → Promoted id target db (Templates.promote id target db)
promote_lem id target db = by_case _ (promote-Promotion id target db)
  where
    by_case : (o : Result Template × Db) → Promotion id target db o → Promoted id target db o
    by_case _ (missing e) = absent e
    by_case _ (refused current e v) =
        forbidden current e (λ l. cc (v, Leads-is_valid_transition current.state target l))
    by_case _ (done current e v) =
        promoted current (after_promote id target current db).templates e
          (is_valid_transition-Leads current.state target v)
          (subst
            (λ k.
              Rowwise (AfterPromotion target current) db.templates
                (after_promote k target current db).templates)
            (found-id id db.templates current e)
            (rw (demoted-update target current db.templates)
              (rows_after target current db.templates)))
