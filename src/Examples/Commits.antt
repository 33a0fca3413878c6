-- ===== src/Examples/Commits.antt =====
-- Runs that are committed to a store (crates/sentinel-store/src/store.rs).
use adguard_sentinel.Base.{
  ℕ, ◌≡◌, ◌≢◌, refl, String, ◌<>◌, none, some, true, false, List, [], ◌∷◌, All, any, sort_with,
}
use adguard_sentinel.Base.Chars.{decimal}
use adguard_sentinel.Base.Int.{pos}
use adguard_sentinel.Base.Result.{ok, ok_or}
use adguard_sentinel.Model.Condition.{EvaluationOutcome, ConditionEvaluation}
use adguard_sentinel.Model.Run.{RunReport, RunMode, RunStatus, OutboxMessage}
use adguard_sentinel.Latch.Invariant.{IsLatch}
use adguard_sentinel.Store.Tables.{Database, canonical_timestamp}
use adguard_sentinel.Store.Query.{pending_outbox, latest_completed, notification_members}
use adguard_sentinel.Store.Cancel.{cancel_unsent_condition, unsent_of}
use adguard_sentinel.Latch.Advance.{advance_condition}
use adguard_sentinel.Store.Latches.{latch_of, next_of}
use adguard_sentinel.Store.Run.{commit_run}
use adguard_sentinel.Store.Committed.{
  commit_run-latch_of, commit_run-IsLatch, commit_run_other_mode,
}
use adguard_sentinel.Store.Queued.{same_message, commit_run-pending}
use adguard_sentinel.Examples.Analyses.{whole}
use adguard_sentinel.Examples.Configs.{config}
use adguard_sentinel.Examples.Latches.{api}
use adguard_sentinel.Examples.Stores.{clock, start, db}

abbrev uuid : ℕ → String
uuid n = "m" <> decimal n

abbrev fresh : String → String
fresh id = "new " <> id

abbrev failing : ConditionEvaluation ℕ
failing = record (api EvaluationOutcome.active) { sustain_runs = 1 }

abbrev run : String → RunMode → RunReport ℕ ℕ
run id mode = record {
  schema_version = 1;
  run_id = id;
  mode = mode;
  started_at = start;
  completed_at = start;
  config_sha256 = "";
  state_schema_version = 3;
  run_status = RunStatus.complete;
  expected_targets = 1;
  complete_targets = 1;
  minimum_complete_targets = 1;
  targets = [];
  aggregate = none;
  evaluations = failing ∷ [];
  findings = [];
  transitions = [];
  notifications = [];
  delivery_activity = [];
  health = record { minimum_complete_targets = 1; complete_targets = 1; met = true; issues = [] };
  exit = record { code = 0; reason = "observation completed" };
}

abbrev Committed : Type 0
Committed = Database ℕ ℕ × RunReport ℕ ℕ × List OutboxMessage

abbrev committed : Committed
committed =
    ok_or (commit_run clock whole uuid fresh db (run "r9" RunMode.live) config (pos 0) start false)
      (db, run "r9" RunMode.live, [])

commits :
    commit_run clock whole uuid fresh db (run "r9" RunMode.live) config (pos 0) start false
    ≡ ok committed
unfolding commit_run canonical_timestamp latest_completed cancel_unsent_condition unsent_of
    sort_with notification_members advance_condition decimal
commits = refl

commit_run-IsLatch_example : All IsLatch committed.0.states
commit_run-IsLatch_example =
    commit_run-IsLatch clock whole uuid fresh db (run "r9" RunMode.live) config (pos 0) start false
      committed tt commits

commit_run-latch_of_example :
    latch_of committed.0.states "target:one:api" ≡ some (next_of start "r9" false [] failing)
unfolding canonical_timestamp
commit_run-latch_of_example =
    commit_run-latch_of clock whole uuid fresh db (run "r9" RunMode.live) config (pos 0) start false
      committed "target:one:api" (tt, tt) commits

commit_run_other_mode_example :
    commit_run clock whole uuid fresh committed.0
      (run "r10" RunMode.dry_run)
      config
      (pos 0)
      start
      true
    ≢ ok committed
commit_run_other_mode_example =
    commit_run_other_mode clock whole uuid fresh db (run "r9" RunMode.live) config (pos 0) start
      false committed (run "r10" RunMode.dry_run) config (pos 0) start true committed commits refl

abbrev pending : List OutboxMessage
pending = ok_or (pending_outbox clock committed.0 start) []

asked : pending_outbox clock committed.0 start ≡ ok pending
unfolding pending_outbox canonical_timestamp
asked = refl

commit_run-pending_example : All (λ m. any (same_message m) pending ≡ true) committed.2
commit_run-pending_example =
    commit_run-pending clock whole uuid fresh db (run "r9" RunMode.live) config (pos 0) start
      committed start pending commits asked
