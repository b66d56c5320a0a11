-- ===== src/Instances.antt =====
-- internal/instance/repository.go: the instances, whose version counts the changes of state.
use text.Mathlib.Text.{◌==◌ as str_eq}
use proxmox_manager.Base.{
  ℕ, suc, String, ◌+◌, Bool, ◌&&◌, ◌||◌, any, is_some, failure, not, Option, none, some, [], ◌∷◌,
  ◌++◌, ◌==◌, if◌then◌else◌, update_where, count_where, find, Exec, not_found, or_raise, gets, ok,
  err, ◌>>=◌,
}
use proxmox_manager.Domain.{VmInstance, InstanceState, requested, retired, is_retired}
use proxmox_manager.Store.{Db}

abbrev pub has_id : ℕ → VmInstance → Bool
has_id k i = i.id == k

-- UNIQUE(logical_name, generation), and the index uq_active_instance_hostname, of
-- migrations/000001_init.up.sql: a row that is in the way of a new one
unfoldable pub collides : String → String → ℕ → VmInstance → Bool
collides logical_name hostname generation i =
    (str_eq i.logical_name logical_name && i.generation == generation)
    || (str_eq i.hostname hostname && not (is_some i.retired_at))

-- 0 is the generation that is not given
abbrev pub generation_of : ℕ → ℕ
generation_of generation = if generation == 0 then 1 else generation

abbrev pub inserted : String → String → ℕ → ℕ → Option String → Exec Db VmInstance
inserted logical_name hostname generation template_id workload_adapter db =
    (ok new, record db { next_id = suc db.next_id; instances = db.instances ++ new ∷ [] })
  where
    new : VmInstance
    new = record {
      id = db.next_id;
      logical_name = logical_name;
      hostname = hostname;
      state = requested;
      generation = generation;
      template_id = template_id;
      pve_cluster_id = none;
      pve_node = none;
      vmid = none;
      workload_adapter = workload_adapter;
      version = 1;
      retired_at = none;
    }

-- the columns that the caller does not give are NULL, and the version starts at 1; the error of the
-- INSERT is that of the database
unfoldable pub create : String → String → ℕ → ℕ → Option String → Exec Db VmInstance
unfolding collides
create logical_name hostname generation template_id workload_adapter db =
    if any (collides logical_name hostname (generation_of generation)) db.instances
    then (err failure, db)
    else inserted logical_name hostname (generation_of generation) template_id workload_adapter db

unfoldable pub get : ℕ → Exec Db VmInstance
get id db = or_raise not_found (find (has_id id) db.instances) db

-- an UPDATE, and ErrNotFound if it affects no row
unfoldable pub update_required :
    (VmInstance → Bool) → (VmInstance → VmInstance) → Exec Db (Unit {0})
update_required p f db =
    if count_where p db.instances == 0
    then (err not_found, db)
    else (ok tt, record db { instances = update_where p f db.instances })

abbrev pub in_state : InstanceState → VmInstance → VmInstance
in_state s i = record i { state = s; version = i.version + 1 }

unfoldable pub update_state : ℕ → InstanceState → Exec Db (Unit {0})
unfolding update_required
update_state id new_state = update_required (has_id id) (in_state new_state)

abbrev pub placed : ℕ → ℕ → ℕ → VmInstance → VmInstance
placed cluster_id node vmid i = record i {
  pve_cluster_id = some cluster_id;
  pve_node = some node;
  vmid = some vmid;
}

unfoldable pub set_pve_placement : ℕ → ℕ → ℕ → ℕ → Exec Db (Unit {0})
unfolding update_required
set_pve_placement id cluster_id node vmid =
    update_required (has_id id) (placed cluster_id node vmid)

unfoldable pub retirable : ℕ → VmInstance → Bool
unfolding is_retired
retirable id i = has_id id i && not (is_retired i)

abbrev pub retired_row : ℕ → VmInstance → VmInstance
retired_row now i = record i { state = retired; retired_at = some now; version = i.version + 1 }

unfoldable pub retire : ℕ → Exec Db (Unit {0})
unfolding update_required retirable
retire id = do now ← gets (λ db. db.now); update_required (retirable id) (retired_row now)
