-- ===== src/Lib.antt =====
-- AdGuard Sentinel observes AdGuard Home resolvers once per run, judges what it saw against a
-- declared configuration, and notifies of conditions that persist. This library models the part of
-- the program that decides, and proves what it promises.
--
-- A run goes through these parts:
-- * the configuration is read and validated (crates/sentinel-core/src/config.rs): Config/Types has
--   the types and their defaults, Config/Names the normalizations, and Config/Profiles, Policies,
--   Targets and Validate the checks of `Config::validate`, each as the list of the errors that it
--   pushes; Config/Accepted says what a configuration without errors guarantees;
-- * each target's report becomes evaluations (crates/sentinel-core/src/analysis.rs):
--   Analysis/Target has `evaluate_target` over Analysis/Policy (`evaluate_dns_policy`),
--   Analysis/Filter (`evaluate_filters`) and Analysis/Rewrite (`evaluate_rewrites`);
--   Analysis/Window has `window_between` and `combined_readings`, Analysis/Baseline
--   `robust_bounds`, Analysis/Behavior `behavioral_evaluations`, Analysis/Aggregate
--   `evaluate_target_behavior` and `evaluate_aggregate`, and Analysis/Upstream and
--   Analysis/Latency `evaluate_upstream_latency`. Analysis/Measures, Pooling, Subject, Group,
--   Verdicts, Effective and Report hold what is proved of them. Hex is
--   crates/sentinel-core/src/hex.rs;
-- * each evaluation advances the latch of its condition (`advance_condition`, in the same file):
--   Latch/Advance; its events are the evaluations and the fates of its messages. Latch/Spec,
--   Invariant, Episodes and History hold what is proved of it;
-- * the transitions of the latches become messages (`build_outbox` in
--   crates/sentinel-store/src/store.rs): Outbox/Batch, with Outbox/Batching, Bounds and Pending;
-- * the targets answer (crates/sentinel-adguard/src/lib.rs): Adguard/Types has the errors, the
--   endpoints and the bodies, Adguard/Stats, Upstreams and Lists the normalizations
--   (`normalize_stats`, `normalize_upstreams`, `normalize_dns`, `normalize_filters`,
--   `normalize_rewrites`), and Adguard/Observe `get_json` and `observe`; Adguard/Body, Rewrites,
--   Filters, Counted (over Entries and Averaged) and Shares hold what is proved of them.
--   Cli/Observe has the tasks that observe the targets with their cooldowns (`check_with_sink` in
--   apps/sentinel-cli/src/main.rs), and Cli/Answered what an observation means for the `api`
--   condition;
-- * the run is committed to the state store (crates/sentinel-store/src/store.rs), in one
--   transaction: Store/Run has `commit_run`, over Store/Commit (the loop over the evaluations, with
--   `load_condition_state` and `upsert_condition_state`), Store/Persist (`insert_run`,
--   `insert_targets`, `insert_aggregate`, `insert_evaluations`), Store/Cooldown
--   (`update_runtime_states`), Store/Queue (`insert_outbox`) and Store/Prune (`prune_runs`).
--   Store/Latches, Loop, Frame, Committed, Queued and Kept hold what is proved of it;
-- * the messages are delivered from the state store (the same file): Store/Tables has the tables as
--   lists of rows, Store/Query the queries, Store/Cancel `cancel_unsent_condition`, Store/Attempt
--   `begin_notification_attempt`, Store/Record `record_notification_attempt`, Store/Recover
--   `recover_interrupted_attempts` and `refresh_run_delivery`; Store/Status (over Evolution),
--   Withdrawn and Interrupted hold what is proved of the life of a message. A transaction is a
--   function that returns the new tables or an error, in which case the old ones stand. Cli/Deliver
--   is the loop of `check_with_sink` that sends, Cli/Settled what is proved of it;
-- * the run ends with a status and an exit code: Cli/Exit (apps/sentinel-cli/src/main.rs) and
--   Cli/Response (`classify_response` in apps/sentinel-cli/src/notify.rs), with Cli/Promises and
--   Cli/Profile.
-- Model has the types of crates/sentinel-core/src/model.rs, Base what the modules share, and
-- Examples concrete runs, one for each theorem.
--
-- Numbers: an unsigned integer is a natural number, with the saturation and the overflow checks
-- that the code has written out; an `i64` is an integer of Base/Int with its saturation and its
-- wrap-around; an `f64` is an abstract type with the operations that the code calls (Base/Float),
-- so no theorem rests on a law of floating-point arithmetic. All loops recur on the lists that they
-- go through, so there is no fuel. A map is an association list sorted by its keys, a set of what
-- was met is a list, and a mutable argument is returned.
--
-- Parameters, since they are not code of the repository: the HTTP library with the JSON and the
-- semantic versions that it decodes (Adguard/Observe), the sink that sends a message and the clock
-- (Cli/Deliver), SHA-256, the canonical text of an IP address, the parsing of URLs, of version
-- requirements and of timestamps, file metadata, the time zone database and the identifiers that
-- `Uuid::new_v4` draws. Of SQLite the tables, the keys and the checks of schemas/state-v3.sql are
-- written out where a report can violate them.
--
-- Not modelled: the construction of the HTTP clients, the requests of notify.rs, arguments, the
-- scheduling of tasks and output of the command line (apps/sentinel-cli), the migrations of the
-- schema (schema.rs), opening and locking the store, the SQL that loads reports back, and the clock.
-- They are input and output, or text that SQLite executes.
pub mod Base
pub mod Model
pub mod Latch
pub mod Outbox
pub mod Store
pub mod Hex
pub mod Config
pub mod Analysis
pub mod Adguard
pub mod Cli
pub mod Examples
