-- ===== src/Lib.antt =====
-- Release engine, domain lifecycle, permissions, expiry, agents, alerts and GFW detection of the Domain
-- Lifecycle & Deployment Platform: a model of the Go code and its proofs.
--
-- The program manages domains and deploys HTML to the hosts that serve them. A release takes
-- one template version to a set of domains. It is created and planned into shards, its artifact is
-- built, its shards are dispatched one after the other to agents on the hosts, and each shard is
-- polled until its agent tasks are done. A release can be paused, cancelled and rolled back. Every
-- change of its status goes through one transaction that also writes the audit table
-- release_state_history.
--
-- Where the code is modelled:
--   Base             shared tests, rows and lists, and the monad of service code (Base/Exec);
--                    Base/Runs, Ends and Always say where a program ends, when no call fails
--                    (Runs, Ends) or whatever calls fail (Always)
--   Release/Graph    internal/release/statemachine.go
--   Release/Planner  internal/release/planner.go
--   Release/Reload   internal/release/dispatcher.go
--   Release/Tables   the rows of store/postgres, the payloads of internal/tasks/payloads.go and of
--                    internal/release/service.go, the errors of internal/release/errors.go
--   Release/Store    store/postgres/release.go
--   Release/TaskStore  store/postgres/domain_task.go, agent.go, rollback.go, host_group.go, domain.go,
--                    template.go, artifact.go: the statements that the release engine sends
--   Release/Service  internal/release/service.go and rollback.go: Transition (TransitionRelease,
--                    Pause, Resume, Cancel), Create, Plan (Plan, MarkReady), Dispatch (DispatchShard),
--                    Finalize, Rollback (Rollback, ExecuteRollback)
--   Release/Effects  the specification of the service as a relation between tables
--   Release/Audit    sequences of operations, and the audit trail
--   Lifecycle        internal/lifecycle/statemachine.go and service.go (Transition, Register, the
--                    transfers), store/postgres/lifecycle.go, and statements of domain.go
--   Alerts           internal/alert: Engine (engine.go), Dispatcher (dispatcher.go and task.go);
--                    Tables and Store are store/postgres/alert.go and notification.go
--   Gfw              internal/gfw: Confidence (confidence.go), Analyzer (analyzer.go), Blocking
--                    (blocking_alert.go), Verdicts (verdict_service.go); Measurements are the types of
--                    pkg/probeprotocol, Tables the statements of store/postgres/gfw_*.go
--   Access           internal/domain/permission.go, store/postgres/domain_permission.go and role.go,
--                    api/middleware/dns_permission.go
--   Expiry           internal/domain/expiry.go and task.go, and statements of store/postgres/domain.go
--   Agents           internal/agent: Graph (statemachine.go), Service (service.go, health.go); Tables and
--                    Store are store/postgres/agent.go
--   Examples         concrete runs
--
-- How state and failures are modelled. The database is the record `Tables`, a list of rows per table
-- with the queue of enqueued tasks beside them. Service code is state passing over a `Session`,
-- which has the tables, a count of the calls made, and a function `faults` that says which calls fail.
-- A statement about every session is about every pattern of failing calls. A call that fails
-- leaves the tables as they were; a transaction whose body or commit fails restores the tables
-- of its beginning. Errors that the source logs or assigns to `_` are dropped by `ignore`, and
-- where the source looks at an error and goes on, the model uses `handle`.
--
-- Choices. IDs, times and counts are natural numbers, and overflow of int64 is not modelled. IDs come from
-- one counter for all tables. Texts made by fmt.Sprintf keep their arguments in a data type. Columns
-- that no modelled code reads are left out. The operations of one worker run one after
-- another; two operations interleave only between operations, not between the statements of one. Delays
-- and retry counts of the queue are not modelled. generateReleaseID (a hash) is a parameter
-- `digest`, and the object store's Presign is a parameter `presign`; nothing is assumed of either.
-- The JSON codecs of the tracker's state, the decoding of measurement columns and of a task's payload,
-- the look-up of a CDN by its address, the senders of the channels and the server's test for JSON are
-- parameters too; what a theorem needs of one is among its hypotheses. The clock of the tables stands
-- still within an operation, and may move between two. Confidence scores are hundredths, times are seconds
-- (nanoseconds in Expiry), texts are lower-cased as ASCII, and the key of a domain in Redis is its
-- id. The verdict service calls the alert engine on its own tables, which are a field of the tables
-- of detection.
-- No function runs on fuel: every loop is structural recursion over a list, and the poll of Finalize
-- is one task for each round, with its retry number.
--
-- Not modelled: ExtractTLD and the asset columns of a domain, the lists that stores pass on as they
-- are, the texts of messages, GetDashboardData, the HTTP API, the web front end, DryRun, the artifact
-- builder, the agents' binaries, providers (DNS, CDN, registrar), DNS records and
-- drift, the probe and measurement nodes, the settings of rules and channels, cost, status pages, SSL,
-- imports and maintenance windows. They are other components with their own state, or glue.
pub mod Base
pub mod Release
pub mod Lifecycle
pub mod Alerts
pub mod Gfw
pub mod Access
pub mod Expiry
pub mod Agents
pub mod Examples
