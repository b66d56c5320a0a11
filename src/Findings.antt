-- ===== src/Findings.antt =====
-- internal/storage/findings.go: findings, of which one is open for a category and a resource.
use text.Mathlib.Text.{◌==◌ as str_eq}
use proxmox_manager.Base.{
  ℕ, suc, String, Bool, true, false, ◌&&◌, Option, none, some, [], ◌∷◌, ◌++◌, ◌==◌, if◌then◌else◌,
  any, Exec, ok,
}
use proxmox_manager.Domain.{Finding, FindingState, is_open}
use proxmox_manager.Store.{Db}

-- equality in an index: NULL equals nothing
abbrev pub same_text : Option String → Option String → Bool
same_text (some a) (some b) = str_eq a b
same_text _ none = false
same_text none _ = false

abbrev pub same_id : Option ℕ → Option ℕ → Bool
same_id (some a) (some b) = a == b
same_id _ none = false
same_id none _ = false

-- the index uq_findings_open
unfoldable pub conflicts : Finding → Finding → Bool
conflicts f row =
    is_open row.state
    && (str_eq f.category row.category
        && (same_text f.resource_type row.resource_type && same_id f.resource_id row.resource_id))

-- whether there was an open one already
unfoldable pub create : Finding → Exec Db Bool
unfolding conflicts
create f db = if any (conflicts f) db.findings then (ok true, db) else (
  ok false,
  record db {
    next_id = suc db.next_id;
    findings = db.findings ++ (record f { id = db.next_id; state = FindingState.unresolved }) ∷ [];
  },
)
