-- ===== src/Alerts.antt =====
-- internal/storage/alerts.go, and the alerts that cmd/worker/main.go derives.
pub mod Backlog
pub mod Acknowledged
use text.Mathlib.Text.{◌==◌ as str_eq}
use Prim.Native.String.{◌++◌ as append}
use proxmox_manager.Base.{
  ℕ, suc, String, ◌+◌, Bool, true, false, ◌&&◌, ◌||◌, Option, none, some, List, [], ◌∷◌, ◌++◌, ltb,
  leb, ◌==◌, if◌then◌else◌, any, find, count_where, update_where, Exec, Result, ok, err, Error,
  not_found, version_conflict, or_raise,
}
use proxmox_manager.Domain.{Alert, AlertStatus, firing, is_waiting}
use proxmox_manager.Store.{Db}

abbrev pub has_fingerprint : String → Alert → Bool
has_fingerprint f a = str_eq a.fingerprint f

-- CASE WHEN status = 'resolved' THEN 'firing' ELSE status END
abbrev pub reopened : AlertStatus → AlertStatus
reopened AlertStatus.resolved = firing
reopened s = s

-- the SET of the conflict, which leaves the severity alone
abbrev pub refreshed_alert : ℕ → Alert → Alert
refreshed_alert now a = record a {
  updated_at = now;
  status = reopened a.status;
  version = a.version + 1;
}

-- the columns that the deriver gives
pub record NewAlert : Type 0 where
  pub fingerprint : String
  pub severity : String
  pub resource_type : String
  pub resource_id : String

unfoldable pub upsert : NewAlert → Db → Db
upsert a db =
    if any (has_fingerprint a.fingerprint) db.alerts
    then record db {
      alerts = update_where (has_fingerprint a.fingerprint) (refreshed_alert db.now) db.alerts;
    }
    else record db { next_id = suc db.next_id; alerts = db.alerts ++ inserted ∷ [] }
  where
    inserted : Alert
    inserted = record {
      id = db.next_id;
      fingerprint = a.fingerprint;
      status = firing;
      severity = a.severity;
      resource_type = a.resource_type;
      resource_id = a.resource_id;
      created_at = db.now;
      updated_at = db.now;
      acknowledged_at = none;
      acknowledged_by = none;
      acknowledged_note = none;
      version = 1;
    }

abbrev pub has_id : ℕ → Alert → Bool
has_id k a = a.id == k

unfoldable pub get : ℕ → Exec Db Alert
get id db = or_raise not_found (find (has_id id) db.alerts) db

-- WHERE id = $3, and AND version = $4 where a version is expected
unfoldable pub acknowledgeable : ℕ → ℕ → Alert → Bool
acknowledgeable id expected_version a =
    has_id id a && (expected_version == 0 || a.version == expected_version)

abbrev pub acknowledged_alert : ℕ → ℕ → Option String → Alert → Alert
acknowledged_alert actor now note a = record a {
  status = AlertStatus.acknowledged;
  acknowledged_at = some now;
  acknowledged_by = some actor;
  acknowledged_note = note;
  updated_at = now;
  version = a.version + 1;
}

abbrev missed : ℕ → Option Alert → Error
missed expected_version none = not_found
missed expected_version (some _) = if expected_version == 0 then not_found else version_conflict

-- no row is told apart into a missing alert and one with another version; an expected version that
-- is not positive is 0
unfoldable pub acknowledge : ℕ → ℕ → Option String → ℕ → Exec Db Alert
unfolding acknowledgeable get
acknowledge id actor note expected_version db =
    if count_where (acknowledgeable id expected_version) db.alerts == 0
    then (err (missed expected_version (find (has_id id) db.alerts)), db)
    else get id (record db {
      alerts =
          update_where (acknowledgeable id expected_version) (acknowledged_alert actor db.now note)
            db.alerts;
    })

-- refreshResourceGauges: the jobs that wait
unfoldable pub backlog : Db → ℕ
backlog db = count_where (λ j. is_waiting j.state) db.jobs

abbrev pub backlog_alert : String → NewAlert
backlog_alert severity = record {
  fingerprint = "provisioning_backlog";
  severity = severity;
  resource_type = "system";
  resource_id = "provisioning_backlog";
}

-- deriveOperationalAlerts, the part of the backlog
unfoldable pub derive_backlog : ℕ → Db → Db
unfolding upsert
derive_backlog n db =
    if leb 50 n
    then upsert (backlog_alert "critical") db
    else (if leb 20 n then upsert (backlog_alert "warning") db else db)

-- and the part of the ages, of each checkpoint in seconds, in the order of the map's iteration
unfoldable pub derive_stuck : List (String × ℕ) → Db → Db
unfolding upsert
derive_stuck [] db = db
derive_stuck ((checkpoint, age) ∷ ages) db = derive_stuck ages (
    if ltb age 1800
    then db
    else upsert
        (record {
          fingerprint = append "job_stuck:" checkpoint;
          severity = "warning";
          resource_type = "checkpoint";
          resource_id = checkpoint;
        })
        db)

unfoldable pub derive_operational_alerts : ℕ → List (String × ℕ) → Db → Db
unfolding derive_backlog derive_stuck
derive_operational_alerts n ages db = derive_stuck ages (derive_backlog n db)
