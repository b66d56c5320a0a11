-- ===== src/Engine/Evidence.antt =====
-- internal/storage/identity.go and validation_runs.go, and SegmentRepository.Get of
-- internal/ipam/segments.go: the evidence that the validating handlers read and write.
use proxmox_manager.Base.{
  ℕ, String, Bool, ◌&&◌, not, is_some, List, [], ◌∷◌, ◌++◌, map, any, find, select_where, ◌==◌,
  Exec, or_raise, not_found, gets, modify,
}
use proxmox_manager.Domain.{
  NetworkSegment, IdentityObservation, VmInstance, RunType, ValidationResult,
}
use proxmox_manager.Store.{Db}
use proxmox_manager.Validation.Rules.{DuplicateMatch}

unfoldable pub get_segment : ℕ → Exec Db NetworkSegment
get_segment id db = or_raise not_found (find (λ s. s.id == id) db.segments) db

-- an instance but `exclude` with an observation that fits `column = value`
abbrev pub is_duplicate :
    (IdentityObservation → Bool) → ℕ → List IdentityObservation → VmInstance → Bool
is_duplicate fits exclude observations v =
    not (v.id == exclude) && any (λ o. o.instance_id == v.id && fits o) observations

abbrev pub match_of : VmInstance → DuplicateMatch
match_of v = record { instance_id = v.id; retired = is_some v.retired_at }

-- One match for each instance (DISTINCT ON), in the order of the table of instances; no rule reads
-- the order, the generation or the time of a match.
unfoldable pub find_duplicate_by : (IdentityObservation → Bool) → ℕ → Exec Db (List DuplicateMatch)
find_duplicate_by fits exclude =
    gets
      (λ db. map match_of (select_where (is_duplicate fits exclude db.observations) db.instances))

unfoldable pub create_observation : ℕ → ℕ → String → String → Exec Db (Unit {0})
create_observation instance_id generation digest fingerprint = modify (λ db. record db {
  observations =
      db.observations
      ++ record {
        instance_id = instance_id;
        generation = generation;
        machine_id_digest = digest;
        ssh_host_fingerprint = fingerprint;
        observed_at = db.now;
      }
        ∷ [];
})

unfoldable pub create_run : ℕ → ℕ → RunType → ValidationResult → Exec Db (Unit {0})
create_run instance_id job_id type result = modify (λ db. record db {
  runs =
      db.runs
      ++ record { instance_id = instance_id; job_id = job_id; type = type; result = result } ∷ [];
})
