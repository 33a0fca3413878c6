-- ===== src/Model/Run.antt =====
-- A run's report, and the messages that it sends (crates/sentinel-core/src/model.rs).
use adguard_sentinel.Base.{ℕ, String, Option, Bool, true, false, List}
use adguard_sentinel.Base.Int.{ℤ}
use adguard_sentinel.Model.Condition.{
  ConditionEvaluation, ConditionTransition, Finding, TransitionKind,
}
use adguard_sentinel.Model.Observation.{TargetReport}

pub data RunMode : Type 0 where
  live dry_run : RunMode

abbrev pub same_mode : RunMode → RunMode → Bool
same_mode RunMode.live RunMode.live = true
same_mode RunMode.dry_run RunMode.dry_run = true
same_mode _ _ = false

pub data RunStatus : Type 0 where
  complete partial unhealthy : RunStatus

pub data NotificationStatus : Type 0 where
  pending in_flight suppressed delivered retryable failed unknown cancelled : NotificationStatus

pub NotificationStatus-discrete : Discrete NotificationStatus
NotificationStatus-discrete = hlevel

pub record NotificationReport : Type 0 where
  pub id : String
  pub transition : TransitionKind
  pub condition_ids : List String
  pub status : NotificationStatus
  pub remote_request_id : Option String
  pub error_class : Option String

pub data DeliveryAction : Type 0 where
  attempt recovered : DeliveryAction

pub record DeliveryActivity : Type 0 where
  pub attempt_id : String
  pub origin_run_id : String
  pub action : DeliveryAction
  pub notification : NotificationReport

pub record RunHealth : Type 0 where
  pub minimum_complete_targets : ℕ
  pub complete_targets : ℕ
  pub met : Bool
  pub issues : List String

pub record ExitReport : Type 0 where
  pub code : ℕ
  pub reason : String

pub record AggregateObservation (F : Type 0) : Type 0 where
  pub local_hour : ℕ
  pub utc_offset_minutes : ℤ
  pub combined_queries : ℕ
  pub combined_blocked_ratio : F
  pub baseline_age_seconds : ℤ
  pub same_hour_samples : ℕ
  pub baseline_ready : Bool
  pub resolver_query_share : List (String × F)
  pub top_client_share : List (String × F)

pub record RunReport (F V : Type 0) : Type 0 where
  pub schema_version : ℕ
  pub run_id : String
  pub mode : RunMode
  pub started_at : String
  pub completed_at : String
  pub config_sha256 : String
  pub state_schema_version : ℕ
  pub run_status : RunStatus
  pub expected_targets : ℕ
  pub complete_targets : ℕ
  pub minimum_complete_targets : ℕ
  pub targets : List (TargetReport F)
  pub aggregate : Option (AggregateObservation F)
  pub evaluations : List (ConditionEvaluation V)
  pub findings : List (Finding V)
  pub transitions : List ConditionTransition
  pub notifications : List NotificationReport
  pub delivery_activity : List DeliveryActivity
  pub health : RunHealth
  pub exit : ExitReport

pub record TargetRuntimeState : Type 0 where
  pub target_id : String
  pub auth_failed_at : Option ℤ
  pub auth_retry_after : Option ℤ

pub record OutboxMessage : Type 0 where
  pub id : String
  pub run_id : String
  pub transition : TransitionKind
  pub title : String
  pub message : String
  -- `priority` is 0 or -1.
  pub priority : ℤ
  pub status : NotificationStatus
  pub condition_ids : List String
