-- ===== src/Alerts/Backlog.antt =====
-- The alert of a backlog, from one derivation to the next.
use text.Mathlib.Text.{◌==◌ as str_eq}
use mathlib.Core.Option
use proxmox_manager.Base.{ℕ, String, Option, none, some, leb, if◌then◌else◌, find}
use proxmox_manager.Domain.{Alert, AlertStatus, firing}
use proxmox_manager.Store.{Db}
use proxmox_manager.Alerts.{has_fingerprint, reopened}

abbrev pub shown : Alert → String × AlertStatus
shown a = (a.severity, a.status)

abbrev pub shown_at : String → Db → Option (String × AlertStatus)
shown_at f db = Option.map shown (find (has_fingerprint f) db.alerts)

-- a new alert fires with the severity given; one that is there keeps its own
abbrev upserted : String → Option Alert → Option (String × AlertStatus)
upserted severity none = some (severity, firing)
upserted severity (some a) = some (a.severity, reopened a.status)

-- the severity and the status of the backlog's alert, by those before
abbrev pub derived : ℕ → Option Alert → Option (String × AlertStatus)
derived n none =
    if leb 50 n
    then some ("critical", firing)
    else (if leb 20 n then some ("warning", firing) else none)
derived n (some a) =
    if leb 20 n then some (a.severity, reopened a.status) else some (a.severity, a.status)
