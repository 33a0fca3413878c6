-- ===== src/Store/Run.antt =====
-- `commit_run` and `ensure_run_mode`: a run's report becomes rows, latches and messages, in one
-- transaction.
use adguard_sentinel.Base.{
  ℕ, String, ◌<>◌, Option, none, some, Bool, not, List, map, filter_by, sort_with,
}
use adguard_sentinel.Base.Int.{ℤ}
use adguard_sentinel.Base.Float.{Float}
use adguard_sentinel.Base.Result.{Result, ok, ◌>>=◌, ◌>>◌}
use adguard_sentinel.Config.Types.{Config}
use adguard_sentinel.Model.Condition.{ConditionEvaluation, is_active, finding_from}
use adguard_sentinel.Model.Run.{RunMode, same_mode, RunReport, OutboxMessage, NotificationReport}
use adguard_sentinel.Outbox.Batch.{transition_order, build_outbox}
use adguard_sentinel.Store.Tables.{Database, StoreError, Timestamps, canonical_timestamp}
use adguard_sentinel.Store.Query.{latest_completed}
use adguard_sentinel.Store.Attempt.{refuse_if, before}
use adguard_sentinel.Store.Persist.{
  insert_run, insert_targets, insert_aggregate, insert_evaluations,
}
use adguard_sentinel.Store.Prune.{prune_runs}
use adguard_sentinel.Store.Commit.{
  state_version, by_transition, by_finding, upsert_states, Advanced, advance_all,
}
use adguard_sentinel.Store.Cooldown.{found_or, update_runtime_states}
use adguard_sentinel.Store.Queue.{insert_outbox}

-- `encode` of a mode.
abbrev mode_text : RunMode → String
mode_text RunMode.live = "live"
mode_text RunMode.dry_run = "dry_run"

-- `ensure_run_mode`.
unfoldable pub ensure_run_mode : Option RunMode → RunMode → Result StoreError (Unit {0})
ensure_run_mode none mode = ok tt
ensure_run_mode (some existing) mode = refuse_if (not (same_mode existing mode)) (
    "state database is bound to Some(\""
    <> (mode_text existing <> ("\") runs and cannot be used for \"" <> (mode_text mode <> "\""))))

-- `INSERT OR IGNORE INTO state_identity`.
abbrev pub bind_mode : Option RunMode → RunMode → Option RunMode
bind_mode none mode = some mode
bind_mode (some existing) mode = some existing

module _ (T : Timestamps) where
  open T use {Timestamp, parse, earlier}

  -- `latest_completed_at`.
  unfoldable pub latest_timestamp : Option String → Result StoreError (Option Timestamp)
  latest_timestamp none = ok none
  latest_timestamp (some value) = do t ← found_or "invalid timestamp" (parse value); ok (some t)

  -- The run must not begin before the latest completed one ended.
  unfoldable pub check_clock : Option Timestamp → String → Result StoreError (Unit {0})
  check_clock none started = ok tt
  check_clock (some latest) started = do
    t ← found_or "invalid timestamp" (parse started)
    refuse_if (earlier t latest)
        "wall clock regressed behind the latest completed run; state was not advanced"

abbrev report_of : OutboxMessage → NotificationReport
report_of m = record {
  id = m.id;
  transition = m.transition;
  condition_ids = m.condition_ids;
  status = m.status;
  remote_request_id = none;
  error_class = none;
}

-- `Uuid::new_v4` is `uuid` for the messages of the run.
module _ (uuid : ℕ → String) {F V : Type 0} where
  -- The report with what the loop found.
  unfoldable pub fill : Advanced F V → Bool → RunReport F V → RunReport F V × List OutboxMessage
  unfolding build_outbox transition_order finding_from
  fill advanced suppress report =
      let transitions = sort_with by_transition (Advanced.transitions advanced) in
      let outbox = build_outbox uuid report.run_id suppress transitions in
      (
        record report {
          evaluations = Advanced.evaluations advanced;
          transitions = transitions;
          findings = sort_with by_finding (
              map (λ e. finding_from e)
                (filter_by (λ e. is_active (ConditionEvaluation.outcome e))
                  (Advanced.evaluations advanced)));
          notifications = map report_of outbox;
        },
        outbox,
      )

module _ (fl : Float) {V : Type 0} where
  open fl use {F}

  -- The statements after the loop, up to the messages. `report` is filled in.
  unfoldable pub write_rows :
      Advanced F V → RunReport F V → Config → ℤ → Result StoreError (Database F V)
  unfolding insert_run insert_targets insert_aggregate upsert_states insert_evaluations
      update_runtime_states
  write_rows advanced report config now = do
    db1 ← insert_run fl (Advanced.db advanced) report
    db2 ← insert_targets fl db1 report.run_id report.targets
    db3 ← insert_aggregate fl db2 report.run_id report.aggregate
    let db4 : Database F V = record db3 { states = upsert_states advanced.states db3.states }
    db5 ← insert_evaluations db4 report.run_id report.evaluations
    runtime ← update_runtime_states config now report.targets (Database.runtime db5)
    ok (record db5 { runtime = runtime })

module _ (T : Timestamps) (fl : Float) {V : Type 0} where
  open fl use {F}

  unfoldable pub persist :
      Advanced F V
      → RunReport F V
      → List OutboxMessage
      → Config
      → ℤ
      → String
      → Result StoreError (Database F V)
  unfolding write_rows insert_outbox prune_runs
  persist advanced report outbox config now retention_cutoff = do
    written ← write_rows fl advanced report config now
    queued ← insert_outbox report.completed_at report.transitions written outbox
    cutoff ← canonical_timestamp T retention_cutoff
    ok (prune_runs queued cutoff)

-- The guards: the canonical times of the run, a clock that did not go back, and the mode.
unfoldable pub check_run :
    Timestamps → {F V : Type 0} → Database F V → RunReport F V → Result StoreError (String × String)
unfolding ensure_run_mode latest_timestamp check_clock
check_run T db report = do
  started ← canonical_timestamp T report.started_at
  completed ← canonical_timestamp T report.completed_at
  refuse_if (before completed started)
      "wall clock regressed during observation; state was not advanced"
  latest ← latest_timestamp T (latest_completed db.runs)
  check_clock T latest started
  ensure_run_mode db.run_mode report.mode
  ok (started, completed)

-- `Uuid::new_v4` is `fresh` for replacements.
module _ (T : Timestamps) (fl : Float) (uuid : ℕ → String) (fresh : String → String)
    {V : Type 0} where
  open fl use {F}

  -- The loop, over the database that the run's mode is bound to.
  unfoldable pub advance_run :
      Database F V → RunReport F V → String → Bool → Result StoreError (Advanced F V)
  unfolding advance_all
  advance_run db report completed suppress =
      advance_all fresh completed report.run_id suppress
        (record db { run_mode = bind_mode db.run_mode report.mode }) report.evaluations

  unfoldable pub fill_run :
      Advanced F V → RunReport F V → String × String → Bool → RunReport F V × List OutboxMessage
  unfolding fill
  fill_run advanced report times suppress = fill uuid advanced suppress (record report {
    started_at = times.0;
    completed_at = times.1;
    state_schema_version = state_version;
  })

  unfoldable pub commit_run :
      Database F V
      → RunReport F V
      → Config
      → ℤ
      → String
      → Bool
      → Result StoreError (Database F V × RunReport F V × List OutboxMessage)
  unfolding check_run advance_run fill_run persist
  commit_run db report config now retention_cutoff suppress = do
    times ← check_run T db report
    advanced ← advance_run db report times.1 suppress
    let filled = fill_run advanced report times suppress
    db' ← persist T fl advanced filled.0 filled.1 config now retention_cutoff
    ok (db', filled.0, filled.1)
