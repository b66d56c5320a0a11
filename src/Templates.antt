-- ===== src/Templates.antt =====
-- internal/template/repository.go: the template registry and its promotion.
pub mod Active
pub mod Canary
use text.Mathlib.Text.{◌==◌ as str_eq}
use proxmox_manager.Base.{
  ℕ, suc, String, Bool, true, false, ◌&&◌, not, Option, some, List, [], ◌∷◌, ◌++◌, ◌==◌,
  if◌then◌else◌, update_where, count_where, find, Exec, Result, not_found, invalid_transition,
  or_raise, gets, guard, modify, pure, ok, err, ◌>>=◌, ◌>>◌,
}
use proxmox_manager.Domain.{
  Template, TemplateState, ValidationResult, draft, candidate, active, deprecated, revoked, unknown,
  is_active,
}
use proxmox_manager.Store.{Db, with_tx}

-- `isValidTransition` over the map `validTransitions`
unfoldable pub is_valid_transition : TemplateState → TemplateState → Bool
is_valid_transition draft candidate = true
is_valid_transition candidate active = true
is_valid_transition candidate revoked = true
is_valid_transition active deprecated = true
is_valid_transition active revoked = true
is_valid_transition deprecated active = true
is_valid_transition deprecated revoked = true
is_valid_transition _ _ = false

abbrev pub has_id : ℕ → Template → Bool
has_id k t = t.id == k

unfoldable pub get : ℕ → Exec Db Template
get id db = or_raise not_found (find (has_id id) db.templates) db

-- a new version is a DRAFT, whatever state the caller gives
unfoldable pub create : Template → Exec Db Template
create t db =
    let t' = record t { id = db.next_id; state = draft; validation_status = unknown } in
    (ok t', record db { next_id = suc db.next_id; templates = db.templates ++ t' ∷ [] })

-- WHERE family = $1 AND state = 'ACTIVE' AND id != $2
unfoldable pub other_active : String → ℕ → Template → Bool
other_active family id t = str_eq t.family family && is_active t.state && not (has_id id t)

abbrev pub in_state : TemplateState → Template → Template
in_state s t = record t { state = s }

unfoldable pub demoted : TemplateState → Template → List Template → List Template
unfolding other_active
demoted target current ts =
    if is_active target
    then update_where (other_active current.family current.id) (in_state deprecated) ts
    else ts

unfoldable pub promote_tx : ℕ → TemplateState → Exec Db Template
unfolding get
promote_tx id target = do
  current ← get id
  guard (is_valid_transition current.state target) invalid_transition
  modify (λ db. record db { templates = demoted target current db.templates })
  modify (λ db. record db { templates = update_where (has_id id) (in_state target) db.templates })
  get id

unfoldable pub promote : ℕ → TemplateState → Exec Db Template
unfolding promote_tx
promote id target = with_tx (promote_tx id target)

abbrev with_status : ValidationResult → Template → Template
with_status status t = record t { validation_status = status }

unfoldable pub set_validation_status : ℕ → ValidationResult → Exec Db (Unit {0})
set_validation_status id status db =
    if count_where (has_id id) db.templates == 0 then (err not_found, db) else (
      ok tt,
      record db { templates = update_where (has_id id) (with_status status) db.templates },
    )
