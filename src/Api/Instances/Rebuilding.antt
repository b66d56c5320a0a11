-- ===== src/Api/Instances/Rebuilding.antt =====
-- What the rebuilding of an instance leaves in the database.
use proxmox_manager.Base.{
  ℕ, String, ◌+◌, ◌≡◌, ◌⊎◌, none, some, List, find, In, Rowwise, ◌==◌, Result, ok, err, not_found,
  failure,
}
use proxmox_manager.Domain.{VmInstance, InstanceState, JobOperation}
use proxmox_manager.Jobs
use proxmox_manager.Instances
use proxmox_manager.Api.{Resources, Reply}
use proxmox_manager.Api.Instances.{Body}
use proxmox_manager.Api.Instances.Outcome.{IsProvisioned, IsTaken}

-- the instance, not retired yet
abbrev pub IsRetirable : ℕ → VmInstance → Type 0
IsRetirable id x = (x.id ≡ id) × (x.retired_at ≡ none)

-- the instance becomes RETIRED at this time, one version on, all else is as it was
abbrev pub Retired : ℕ → ℕ → VmInstance → VmInstance → Type 0
Retired now id x y =
    (IsRetirable id x
      × (y ≡ record x {
        state = InstanceState.retired;
        retired_at = some now;
        version = x.version + 1;
      }))
    ⊎ (¬ IsRetirable id x) × (y ≡ x)

module _ (format : String → ℕ → String) (id : ℕ) (s : Resources) where
  -- What the work of POST /v1/instances/{id}/rebuild does, by what it finds. `rows` are the
  -- instances with this one retired.
  pub data Rebuilt : Result (Reply Body) × Resources → Type 0 where
    missing : find (λ i. i.id == id) s.db.instances ≡ none → Rebuilt (err not_found, s)
    retired_before :
        ((x : VmInstance) → In x s.db.instances → ¬ IsRetirable id x) → Rebuilt (err not_found, s)
    taken :
        (old : VmInstance) (rows : List VmInstance) (hostname : String) (after : Resources)
        → find (λ i. i.id == id) s.db.instances ≡ some old
        → Rowwise (Retired s.db.now id) s.db.instances rows
        → IsTaken old.logical_name hostname (old.generation + 1) rows
        → Rebuilt (err failure, after)
    rebuilt :
        (old inst : VmInstance) (rows : List VmInstance) (reply : Reply Body) (after : Resources)
        → find (λ i. i.id == id) s.db.instances ≡ some old
        → ((x : VmInstance) × In x s.db.instances × IsRetirable id x)
        → Rowwise (Retired s.db.now id) s.db.instances rows
        → (¬ IsTaken old.logical_name inst.hostname (old.generation + 1) rows)
        → IsProvisioned JobOperation.rebuild (record s.db { instances = rows }) after.db inst reply
        → inst.logical_name ≡ old.logical_name
        → inst.template_id ≡ old.template_id
        → inst.generation ≡ old.generation + 1
        → inst.workload_adapter ≡ old.workload_adapter
        → Rebuilt (ok reply, after)
