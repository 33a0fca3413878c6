-- ===== src/Store/Tables.antt =====
-- The tables that delivery works on (schemas/state-v3.sql), the errors, and the timestamps.
use adguard_sentinel.Base.{ℕ, String, Option, none, some, Bool, List, if◌then◌else◌}
use text.Mathlib.Text.{starts_with}
use adguard_sentinel.Base.Int.{ℤ}
use adguard_sentinel.Base.Result.{Result, ok, err}
use adguard_sentinel.Model.Condition.{ConditionEvaluation, ConditionState, TransitionKind}
use adguard_sentinel.Model.Run.{
  RunMode, RunStatus, NotificationStatus, DeliveryActivity, TargetRuntimeState, OutboxMessage,
  AggregateObservation,
}
use adguard_sentinel.Model.Observation.{
  TargetStatus, UpstreamObservation, FilterObservation, RewriteObservation,
}

-- What `rusqlite` reports of a statement.
pub data SqliteError : Type 0 where
  query_returned_no_rows constraint_violation other : SqliteError

pub data StoreError : Type 0 where
  missing_parent parent_missing already_in_use : String → StoreError
  sqlite : SqliteError → StoreError
  unsupported_version : ℤ → ℤ → StoreError
  migration_required : ℤ → StoreError
  unversioned_state permissions io : StoreError
  invalid_data : String → StoreError

-- A row of `runs`.
pub record RunRow : Type 0 where
  pub id : String
  pub started_at : String
  pub completed_at : String
  pub mode : RunMode
  pub config_sha256 : String
  pub status : RunStatus
  pub expected_targets : ℕ
  pub complete_targets : ℕ
  pub minimum_targets : ℕ
  pub exit_code : ℕ
  pub health_issues : List String
  pub delivery_activity : List DeliveryActivity

-- A row of `target_observations`; a counter's text is the number that it denotes.
pub record TargetRow (F : Type 0) : Type 0 where
  pub run_id : String
  pub target_id : String
  pub target_name : String
  pub status : TargetStatus
  pub complete : Bool
  pub server_version : Option String
  pub protection_enabled : Option Bool
  pub queries : Option ℕ
  pub blocked : Option ℕ
  pub counters_exact : Bool
  pub blocked_ratio : Option F
  pub average_processing_seconds : Option F
  pub maximum_upstream_seconds : Option F
  pub top_client_share : Option F
  pub dns_upstream_mode : Option String
  pub dns_upstreams : Option (List String)
  pub filtering_enabled : Option Bool
  pub rewrites_enabled : Option Bool
  pub error_kind : Option String
  pub error_detail : Option String

-- A row of `upstream_observations`.
pub record UpstreamRow (F : Type 0) : Type 0 where
  pub run_id : String
  pub target_id : String
  pub ordinal : ℕ
  pub upstream : UpstreamObservation F

-- A row of `filter_observations`, and one of `rewrite_observations`.
pub record FilterRow : Type 0 where
  pub run_id : String
  pub target_id : String
  pub filter : FilterObservation

pub record RewriteRow : Type 0 where
  pub run_id : String
  pub target_id : String
  pub rewrite : RewriteObservation

-- A row of `aggregate_observations`.
pub record AggregateRow (F : Type 0) : Type 0 where
  pub run_id : String
  pub aggregate : AggregateObservation F

-- A row of `condition_evaluations`.
pub record EvaluationRow (V : Type 0) : Type 0 where
  pub run_id : String
  pub condition_id : String
  pub episode_id : Option String
  pub evaluation : ConditionEvaluation V

-- A row of `notification_outbox`.
pub record Notification : Type 0 where
  pub id : String
  pub run_id : String
  pub transition : TransitionKind
  pub title : String
  pub message : String
  pub priority : ℤ
  pub status : NotificationStatus
  pub created_at : String
  pub next_retry_at : Option String
  pub delivered_at : Option String
  pub remote_request_id : Option String
  pub error_class : Option String
  pub attempt_id : Option String

-- A row of `notification_conditions`.
pub record Member : Type 0 where
  pub notification_id : String
  pub condition_id : String
  pub episode_id : String
  pub summary : String

pub data AttemptOutcome : Type 0 where
  in_flight delivered retryable failed unknown : AttemptOutcome

-- A row of `notification_attempts`.
pub record Attempt : Type 0 where
  pub id : String
  pub notification_id : String
  pub executing_run_id : String
  pub started_at : String
  pub completed_at : Option String
  pub outcome : AttemptOutcome
  pub http_status : Option ℕ
  pub remote_request_id : Option String
  pub error_class : Option String

pub record Database (F V : Type 0) : Type 0 where
  pub run_mode : Option RunMode
  pub runs : List RunRow
  pub targets : List (TargetRow F)
  pub upstreams : List (UpstreamRow F)
  pub filters : List FilterRow
  pub rewrites : List RewriteRow
  pub aggregates : List (AggregateRow F)
  pub evaluations : List (EvaluationRow V)
  pub states : List ConditionState
  pub runtime : List TargetRuntimeState
  pub notifications : List Notification
  pub members : List Member
  pub attempts : List Attempt

-- `NotificationAttemptOutcome`, what a send reports.
pub data NotificationAttemptOutcome : Type 0 where
  delivered : ℕ → String → NotificationAttemptOutcome
  retryable : Option ℕ → String → NotificationAttemptOutcome
  failed : Option ℕ → Option String → String → NotificationAttemptOutcome
  unknown : String → NotificationAttemptOutcome

-- `NotificationAttempt`, the claim that `begin_notification_attempt` returns.
pub record NotificationAttempt : Type 0 where
  pub message : OutboxMessage
  pub id : String
  pub started_at : String
  pub executing_run_id : String

-- `jiff::Timestamp`, as far as the store uses it.
pub record Timestamps : Type 1 where
  pub Timestamp : Type 0
  -- `str::parse::<Timestamp>`.
  pub parse : String → Option Timestamp
  -- `<`.
  pub earlier : Timestamp → Timestamp → Bool
  -- `format!("{:.9}")`.
  pub display : Timestamp → String
  pub as_second : Timestamp → ℤ
  pub subsec_nanosecond : Timestamp → ℤ
  -- `Timestamp::new`.
  pub of_parts : ℤ → ℤ → Option Timestamp

module _ (T : Timestamps) where
  open T use {parse, display}

  unfoldable pub canonical_timestamp : String → Result StoreError String
  canonical_timestamp value = elim (parse value) [
    | none ↦ err (invalid_data "invalid timestamp")
    | some timestamp ↦
        (let canonical = display timestamp in
          if starts_with canonical "-"
          then err (invalid_data "timestamps before year zero are unsupported")
          else ok canonical)
  ]
