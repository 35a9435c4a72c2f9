-- ===== src/Lib.antt =====
-- Verification of proxy-fleet, a service that collects proxy configurations from subscriptions,
-- tests them, keeps a lifecycle for each in an SQLite database, runs the good ones as local Xray
-- processes and publishes them.
--
-- The parts and how they interact. Subscriptions are fetched (Upstream), parsed (Parser) and
-- ingested (Store.Upstream) as rows of `nodes`. Every tick the scheduler
-- (Scheduler.Claim) puts due rows under test, in shares for four queues (Scheduler.Quota); the
-- batch is tested through one Xray process, on ports reserved for it (Probe, Xray.Ports); a
-- batch that fails as a whole is blamed on the network (Scheduler.Incident); every other outcome is stored with its evidence
-- (Store.Events), and the health decision (Health, on the numbers of Domain.Evidence) gives the row
-- its new lifecycle, its publication lease and its next test. Rows are released, retired, revived
-- and removed by single statements (Store.Upkeep, Store.Upstream). The loops of the service
-- adapt how much is tested at once and stop it during network incidents (App), and the runtime
-- manager keeps the long-lived processes (Xray.Runtime). Clients are given nodes (Selection) and
-- report on them (Store.Clients); the leased configurations are pushed to a Git repository
-- (Publisher).
--
-- Files, with the code that they model:
--   Domain/Failure, Domain/Lifecycle, Domain/Evidence: src/src/domain/failure.rs, proxy.rs and
--     evidence.rs. `delta`, `decay`, `health`, `lease_until` and `full_jitter_delay` have their names.
--   Health: src/src/health/mod.rs, `decide` with one function for each of its parts.
--   Parser: src/src/parser/mod.rs. Parser/Json: `serde_json::Value`. Parser/Validate: the checks, and
--     the record `Libraries` of what is used of other crates. Parser/Share: `parse_share_url` and the
--     parser of each form of a link. Parser/Subscription: `parse_subscription`. Parser/Outbound:
--     `xray_outbound`.
--   Probe: src/src/probe/mod.rs. Probe/Outside: the record of the world outside, whose steps chain in
--     a state monad. Probe/Dns: `resolve_destination` and `preflight`. Probe/Relay:
--     `test_through_xray`. Probe/Download: `download`. Probe/Batch: `test_batch` and
--     `test_survivor_batch`. Probe/Single: `test`.
--   Upstream: `refresh` of src/src/upstream/mod.rs, with Store/Sources for the table of the sources.
--   Selection: src/src/selection/mod.rs, with `candidates_for_client` of src/src/storage/mod.rs.
--   Publisher: src/src/publisher/mod.rs.
--   Scheduler/Quota, Debt, Incident, Claim: src/src/scheduler/mod.rs (`QueueQuota`, `QueueDebt`,
--     `correlated_incident`, `append_claims` and `claim_due_with_pressure`).
--   Store/Schema: the columns of the tables of src/src/storage/mod.rs. Store/Invariant: when the
--     table of nodes is well-formed. Store/Events: `apply_test_event`. Store/Upkeep: the statements about single rows.
--     Store/Upstream, with Refresh and Publish: ingestion, refreshes and the published snapshot.
--     Store/Clients: assignments and feedback of clients. Store/Reach: the statements that write
--     `nodes` once the schema is migrated, as one step relation.
--   Config: `AppConfig::validate` of src/src/config.rs.
--   App/Guard, Concurrency, Sampler, Restart: the network guard, the adaptive concurrency, the
--     sampled log and `reconcile_active_runtimes` of src/src/app.rs.
--   Xray/Runtime: `RuntimeManager` of src/src/xray/runtime.rs, in the sections that hold a lock.
--   Xray/Vip, Shutdown: `maintain_vip` and `shutdown` of src/src/xray/runtime.rs, with
--     `best_vip_candidate` of src/src/storage/mod.rs.
--   Xray/Ports: `allocate_port` and `allocate_ports` of src/src/xray/mod.rs.
--   Common: lists, Boolean tests, results, a state monad, text, tables with keys, and `f64`.
--   Examples: runs at concrete inputs.
-- The other files hold proofs, and say at their top about what.
--
-- How the code is read. A table is a list of rows, and one call of a store function is one
-- transaction on it; a text column that holds a state or a class has the type of these. Instants and
-- durations count nanoseconds from the epoch on natural numbers; where the code subtracts a span from
-- an instant to compare it, the model adds the span on the other side. `f64` is a parameter with the
-- order laws of IEEE 754 that hold at NaN too. Unsigned integers saturate as the code asks; `usize`
-- products in `for_capacity` wrap. The random draw of the backoff and the ids of `Uuid` are
-- arguments. Maps in memory are lists with one entry for each key. Loops
-- are recursions on lists or histories, and the body of a response is the list of what its polls
-- answer. Only the splits of a batch use fuel: as much as the batch has proxies, which is enough
-- since both halves are smaller. Calls that run side by side in the tests of a batch come one after
-- another, in the order in which they end, which is a parameter. A tick of the scheduler is several
-- statements, and what other tasks do to the table between them is an argument (`meanwhile`).
--
-- Not modelled: SQL execution and its errors, migrations and backups, the JSON reports, the HTTP API,
-- and the start and stop of child processes. The crates
-- for URLs, base64, UUIDs, JSON and digests, the HTTP client, the clock, the sockets, the file system
-- and git are parameters.
pub mod App
pub mod Common
pub mod Config
pub mod Domain
pub mod Examples
pub mod Health
pub mod Parser
pub mod Probe
pub mod Publisher
pub mod Scheduler
pub mod Selection
pub mod Store
pub mod Upstream
pub mod Xray
