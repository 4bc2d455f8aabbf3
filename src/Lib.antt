-- ===== src/Lib.antt =====
-- V91 core system: a local-first resilience core in Python. This library models its controllers and
-- gates and proves what makes them correct.
--
-- LeaseLock models controller/lease_lock.py: `LeaseLockManager` with its leases and last fencing
-- tokens as dictionaries (`Manager`), and acquire, renew, release, validate_action and is_fenced
-- under their names. An operation takes the time it reads as an argument; `run` applies a list of
-- operations. `Tokens` is about fencing, `Exclusion` about the holder of a lock.
--
-- RuntimeControl models controller/runtime_control.py, the autoscaling cycle of the worker service.
-- `Decision` has decide, measure_effect and the low-sample count of the state file, `Observation`
-- the reading of what `docker compose ps` and `docker stats` print, `Cycle` run_cycle itself with
-- the audit log, the scaling, its verification and its rollback. The host (docker, files, sleep) is
-- a record of functions that may fail at any call, and what a cycle does to it is recorded as a list
-- of actions. `Monad`, `Steps` and `Scales` carry the proofs of `Safety` and `Outcomes`;
-- `Thresholds` and `Snapshots` are about decisions and observations.
--
-- PeerSync models controller/peer_sync.py: `Message` the validation of a heartbeat as JSON value,
-- `Registry` the three dictionaries of `PeerRegistry` with receive, mark_unseen_stale and
-- receive_and_track. HMAC over canonical JSON is a parameter. `Replay` is about sequences,
-- `Authenticity` about what an accepted heartbeat shows. create_heartbeat is not modelled.
--
-- GlobalGuard models the package global_guard: `Policy` is policy.py with authorize_action as a
-- chain of tests, `Scenarios` is run_scenarios of scenario_runner.py, which calls it. `Chains` reads
-- each test as a predicate, `Permission` joins them to one (`IsPermitted`), `Guarantees` and
-- `Verdict` are about decisions and reports. The texts of reasons are left out.
--
-- Measurement models the hash-chained ledger of controller/measurement_core.py: event_hash,
-- verify_ledger and append_snapshot with its lock file. JSON and SHA-256 are a parameter (`Codec`).
--
-- Listener models controller/v91_listener.py: `Envelope` has safesignal_check, validate_payload and
-- compute_confidence, `Pipeline` process_file over the tables of the database, with the calls that
-- fail as an argument. `Recording` is about what the tables and the inbox hold after any deliveries.
--
-- V99 models v99/core: `Status`, `Lifecycle`, `Modules` (module_standard.py), `Registry`, `Agent` and
-- `Scheduler` are its files. The registry holds the specifications that `Modules` loads, the agent
-- asks the adapters of the registry, and the scheduler's cycle calls the agent. An adapter is the
-- answers that it gives in one cycle. Times are whole microseconds, which the float of the source
-- tells apart for 250 years. The other files there are proofs: `Severity` about the aggregate,
-- `Transitions`, `SpecRoundTrip`, `Registration`, `Inspection` and `Repairs` about the agent, and
-- `History` about the scheduler. The adapters' other methods and the command line are left out.
--
-- Guardrail models addons/v91_guardrail: `Policy` is core.py with its patterns, and a search that is
-- an argument; `Runner` is guarded_runner.py, which asks the policy before it calls a tool.
-- `Decisions` is about the policy, `Gate` about the calls and the audit.
--
-- Manifest models controller/crypto_receipts.py (`Receipts`) and controller/signed_manifest.py
-- (`Signing`), which signs JSON objects by it. Ed25519 with `json.dumps` is the parameter `Ed25519`,
-- fromisoformat the parameter `Clock`. `Validity` and `RoundTrip` are about what is verified. `Keys`
-- is the lookup of controller/trusted_peer_registry.py.
--
-- Worker models controller/worker.py: `Task` checks and executes a task over a file system that is a
-- parameter, `Queue` is process_one over the directories of the queue and the result files. How the
-- calls of the system end is an argument (`Calls`), and another worker may have taken a file.
-- `Keeping` has the rule that a step keeps a property and `Places` applies it; `Outcomes` and
-- `Verification`, with `Files`, are about the files and results. `Observer` is the snapshot that
-- controller/observer.py makes of the queue and of the action log.
--
-- Admission models controller/resource_admission.py: `Gate` is request_admission and its checks,
-- `Exactness`, with `Checks`, says when it admits. Integers are compared with floats through `of_int`.
--
-- Filter models v99/filter/source_quality.py: `Sources` is the trust configuration, classify and
-- filter_stream, `Sorted` says where items go. `str.lower` is a parameter there.
--
-- PeerStore models controller/peer_store.py: `Store` is PeerObjectStore with its receipts, `Retrieval`
-- is about what it gives back. SHA-256, HMAC and `str` are the parameter `Hashes`.
--
-- Prelude has what these parts share: tests on the native numbers, integers, dictionaries in
-- insertion order (`Dict`), sorted texts (`Sorting`), JSON values (`Value`, `Objects`), texts as
-- `str` sees them (`Text`), calls that return or raise (`Result`), and floats (`Float`): IEEE arithmetic is a parameter, the record
-- `Floats`, so no theorem rests on a law of floats that it does not name. Texts are Unicode without
-- lone surrogates.
--
-- No function needs fuel: loops run over lists. Components meet only in such shared types; each is
-- called by its own command or by its user. Not modelled are argument parsing, printing, logging,
-- the timers and processes around the operations, message texts and identifiers drawn at random, and
-- the other parts of controller, addons, v99 and scripts.
pub mod Prelude
pub mod LeaseLock
pub mod RuntimeControl
pub mod PeerSync
pub mod GlobalGuard
pub mod Measurement
pub mod Listener
pub mod V99
pub mod Guardrail
pub mod Manifest
pub mod Worker
pub mod Admission
pub mod Filter
pub mod PeerStore
