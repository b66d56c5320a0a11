-- ===== src/Ipam/Scanner.antt =====
-- internal/ipam/scanner.go: findings for instances and addresses that do not fit each other.
pub mod Again
use text.Mathlib.Text.{◌==◌ as str_eq}
use text.Mathlib.TextEquality.{eq_iff}
use proxmox_manager.Base.{
  ℕ, suc, String, ◌+◌, ◌≡◌, refl, sym, ap, ◌∙◌, inl, inr, Bool, true, false, ◌&&◌, ◌||◌, not,
  Option, none, some, List, [], ◌∷◌, ◌++◌, map, length, ◌==◌, ==_refl, if◌then◌else◌, any, find,
  select_where, is_some, arith, All, Bool-cases, Result, ok, err,
}
use proxmox_manager.Domain.{
  VmInstance, IpAllocation, Finding, FindingState, is_ready, is_assigned, is_held, is_retired,
}
use proxmox_manager.Store.{Db}
use proxmox_manager.Findings

abbrev owned_by : Option ℕ → ℕ → Bool
owned_by none k = false
owned_by (some i) k = i == k

-- a READY instance with no ASSIGNED address
unfoldable pub is_unassigned : List IpAllocation → VmInstance → Bool
is_unassigned allocations i =
    is_ready i.state
    && not (any (λ a. owned_by a.instance_id i.id && is_assigned a.state) allocations)

abbrev retired_or_missing : Option VmInstance → Bool
retired_or_missing none = true
retired_or_missing (some i) = is_some i.retired_at

abbrev owner : Option ℕ → List VmInstance → Option VmInstance
owner none rows = none
owner (some k) rows = find (λ i. i.id == k) rows

-- a held address whose instance is missing or retired
unfoldable pub is_orphaned : List VmInstance → IpAllocation → Bool
is_orphaned instances a = is_held a.state && retired_or_missing (owner a.instance_id instances)

abbrev pub finding : String → String → ℕ → Finding
finding category resource_type id = record {
  id = 0;
  category = category;
  severity = "warning";
  resource_type = some resource_type;
  resource_id = some id;
  state = FindingState.unresolved;
}

-- the loop over the rows: how many findings are new
abbrev counted : Result Bool → ℕ → ℕ
counted (ok true) n = n
counted (ok false) n = suc n
counted (err _) n = n

unfoldable pub report : List Finding → Db → ℕ × Db
report [] db = (0, db)
report (f ∷ fs) db =
    let (exists, db') = Findings.create f db in
    let (n, db'') = report fs db' in (counted exists n, db'')

unfoldable pub unassigned : Db → List Finding
unfolding is_unassigned
unassigned db =
    map (λ i. finding "ready_instance_without_assigned_ip" "vm_instance" i.id)
      (select_where (is_unassigned db.allocations) db.instances)

unfoldable pub orphaned : Db → List Finding
unfolding is_orphaned
orphaned db =
    map (λ a. finding "orphaned_ip_allocation" "ip_allocation" a.id)
      (select_where (is_orphaned db.instances) db.allocations)

unfoldable pub scan : Db → ℕ × Db
unfolding report unassigned orphaned
scan db =
    let (n, db') = report (unassigned db) db in
    let (m, db'') = report (orphaned db') db' in (n + m, db'')
