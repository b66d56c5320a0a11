-- ===== src/Store.antt =====
-- The PostgreSQL database that the repositories read and write: one list of rows for each table,
-- `now()`, and the source of generated ids. A statement runs to its end with no other between
-- (row locks and transactions make it so), and the loss of the connection is not modelled.
use proxmox_manager.Base.{ℕ, List, Exec, Result, ok, err}
use proxmox_manager.Domain.{
  ProvisioningJob, VmInstance, IpAllocation, NetworkSegment, Template, ValidationRun,
  IdentityObservation, AuditEvent, Finding, Alert,
}

pub record Db : Type 0 where
  pub now : ℕ
  pub next_id : ℕ
  pub jobs : List ProvisioningJob
  pub instances : List VmInstance
  pub allocations : List IpAllocation
  pub segments : List NetworkSegment
  pub templates : List Template
  pub observations : List IdentityObservation
  pub runs : List ValidationRun
  pub audit : List AuditEvent
  pub findings : List Finding
  pub alerts : List Alert

-- internal/storage/db.go, WithTx: an error rolls every write of `m` back.
abbrev settle : {A : Type 0} → Db → Result A × Db → Result A × Db
settle db (ok a, db') = (ok a, db')
settle db (err e, db') = (err e, db)

unfoldable pub with_tx : {A : Type 0} → Exec Db A → Exec Db A
with_tx m db = settle db (m db)
