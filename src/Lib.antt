-- ===== src/Lib.antt =====
-- Proxmox Manager (vm-factory): provisioning of virtual machines on Proxmox by a job queue, a state
-- machine and a set of validation rules, over a PostgreSQL database.
--
-- The program. The API creates an instance and a job (internal/instance, internal/jobs). A worker
-- (cmd/worker) claims a job with a lease, and drives it by the state engine (internal/stateengine):
-- one handler for each instance state, which calls Proxmox (internal/proxmox) and the proxy gateway
-- (internal/pgw), reserves an address (internal/ipam), and hands the new state, checkpoint and
-- evidence to one transaction. A failed job is rolled back or quarantined. The rules that let an
-- instance become READY are in internal/validation; templates are promoted in internal/template, which
-- also tries a template by a canary. The client of the cluster, the collection of a guest's facts and
-- the workload in a guest stand on HTTP requests to Proxmox.
--
-- The files.
--   Base          tables as lists of rows, Boolean tests, keys, ORDER BY and LIMIT, and the state
--                 passing with errors that the operations are written in
--   Domain, Store internal/domain (the rows), and the database with WithTx of internal/storage/db.go
--   Jobs          internal/jobs/repository.go, one definition for each method; Queue puts them
--                 together as actions, Claim, Lease and Exclusion hold the proofs; Listing is List
--   Ipam          internal/ipam/repository.go and reaper.go; Reserve, Reaper, Lifecycle and Rows
--                 hold the proofs; Capacity is the Capacity of segments.go, Hostname is hostname.go,
--                 Scanner is scanner.go
--   Instances     internal/instance/repository.go, with the uniqueness of names and host names of
--                 migrations/000001_init.up.sql
--   Templates     internal/template/repository.go; Active and its child Promoted.
--                 Canary is canary.go, with the proofs in Canary/Ending, Canary/Cleanup and Canary/Verdict
--   Proxmox       internal/proxmox: Session (the requests sent and the time), Client (client.go and
--                 errors.go), Messages (types.go, and what requests and answers hold), Adapter
--                 (adapter.go), Guest (guest.go); Waits, Effects and Commands hold the proofs
--   Guest         internal/guest/facts.go; Fingerprints
--   Workload      internal/workload/sample.go; Install, Remove
--   Config        internal/config/config.go; Accepted
--   Validation    internal/validation: Checks (check.go, evidence.go, and the part of
--                 internal/guest/facts.go that the rules read), Rules (rules_identity_network.go,
--                 rules_egress.go), Drift (drift.go); Aggregate, Conditions, Digits, Egress
--                 and Identity hold the proofs
--   Engine        internal/stateengine: World (what a handler sees), Provision, Network, Validating
--                 and Workload (the nine handlers), Evidence (the rows they read and write, of
--                 internal/storage), Step (engine.go), Rollback, Quarantine; Provision/Retry,
--                 Step/Transition, Rollback/Outcome, Quarantine/Kept, Workload/Ready, Gate,
--                 Gate/Matches and Gate/Identity hold the proofs; Gate/Simulated is the NoopAdapter of
--                 internal/pgw/pgw.go; Advance is the graph of the states, with
--                 Registry (wireEngine of cmd/worker/main.go) and Refined (a step through it)
--   Findings      internal/storage/findings.go
--   Alerts        internal/storage/alerts.go, and the alerts that cmd/worker/main.go derives;
--                 Backlog and Acknowledged hold the proofs
--   Idempotency   internal/storage/idempotency.go; Outcome
--   Api           internal/httpapi: idempotency.go (RunIdempotent) and responses.go; Run, Replays and
--                 Twice are about one key. Instances has the work of the mutations of instances.go,
--                 jobs.go and templates.go, with Outcome and Rebuilding about them, Handlers the
--                 handlers around it; Pages is
--                 pagination.go with the listing of jobs, Pages/Walk a client of it
--   Worker        cmd/worker/main.go: what becomes of a failed step, and the delay of a retry;
--                 Process is processJob, Process/Settled and Process/Drive its end
--   Examples      the theorems at a small database
--
-- Conventions. An id, a reference of another system or a worker is a natural number, 0 the empty
-- string; a time is a number of nanoseconds. A SQL statement is a function on the list of rows; a
-- method returns a result and the new state, the state also beside an error. Errors are the
-- sentinels of internal/domain/errors.go, and one constructor for all others. The answers of
-- Proxmox and of the proxy gateway are parameters, functions of the calls made so far. The
-- worker's loop over the steps is recursion on fuel, and ten rounds are enough, since a step goes
-- down one of the nine states on the way to READY. The loops of polls of Proxmox and Templates/Canary
-- take fuel too, and give themselves enough: each round waits for at least the time that the deadline
-- is divided by, and the result `spinning`, of a loop without fuel, does not come about. All other
-- loops are structural recursion; the polls of a workload's health are as many as begin before the
-- deadline, a number the handler is given. A wait that is cancelled is an error of the call. In
-- Proxmox and above it, the answer to an HTTP request, the time that it takes and what encoding/json
-- reads of it are parameters, functions of the requests sent so far.
--
-- Not modelled: the loss of the database connection, SQL failures other than a missing row and a
-- name that is taken, the other uniqueness constraints of the schema (ids are taken as unique
-- where a theorem says so), the two minutes' limit of the context that a canary is cleaned up in,
-- the heartbeat beside the worker's loop (its effect is an action of Jobs/Queue), routing and
-- JSON, the parsing of YAML, metrics, logs, command line. The handlers of Engine are not put on
-- top of Proxmox: they see the answers to whole operations.
pub mod Base
pub mod Domain
pub mod Store
pub mod Jobs
pub mod Ipam
pub mod Instances
pub mod Proxmox
pub mod Guest
pub mod Workload
pub mod Config
pub mod Engine
pub mod Findings
pub mod Alerts
pub mod Templates
pub mod Validation
pub mod Worker
pub mod Idempotency
pub mod Api
pub mod Examples
