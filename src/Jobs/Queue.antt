-- ===== src/Jobs/Queue.antt =====
-- The operations on the queue as actions of workers, of the maintenance loop and of the API, and
-- the passing of time between them.
use proxmox_manager.Base.{ℕ, String, ◌+◌, Bool, false, ◌&&◌, Option, List, [], ◌∷◌, ◌==◌}
use proxmox_manager.Domain.{JobOperation, InstanceState, CheckpointData}
use proxmox_manager.Store.{Db}
use proxmox_manager.Jobs

pub data Action : Type 0 where
  create : ℕ → JobOperation → InstanceState → Action
  claim : ℕ → ℕ → Action
  heartbeat : ℕ → ℕ → ℕ → Action
  complete : ℕ → ℕ → Action
  fail : ℕ → ℕ → String → Option ℕ → Action
  reclaim : Action
  requeue : ℕ → Action
  checkpoint : ℕ → InstanceState → CheckpointData → Action
  pass_time : ℕ → Action

unfoldable pub apply : Action → Db → Db
apply (create i op s) db = (Jobs.create i op s db).1
apply (claim w lease) db = (Jobs.claim w lease db).1
apply (heartbeat k w ext) db = (Jobs.heartbeat k w ext db).1
apply (complete k w) db = (Jobs.complete k w db).1
apply (fail k w code retry_at) db = (Jobs.fail k w code retry_at db).1
apply reclaim db = (Jobs.reclaim_expired_leases db).1
apply (requeue k) db = (Jobs.requeue k db).1
apply (checkpoint k s d) db = (Jobs.update_checkpoint k s d db).1
apply (pass_time d) db = record db { now = db.now + d }

unfoldable pub apply_all : List Action → Db → Db
apply_all [] db = db
apply_all (a ∷ rest) db = apply_all rest (apply a db)

-- worker w gives job k up
abbrev pub releases : ℕ → ℕ → Action → Bool
releases k w (complete k' w') = (k' == k) && (w' == w)
releases k w (fail k' w' _ _) = (k' == k) && (w' == w)
releases k w _ = false
