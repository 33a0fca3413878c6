-- ===== src/Model/Condition.antt =====
-- Conditions, their latches and their transitions (crates/sentinel-core/src/model.rs). `V` is
-- `serde_json::Value`, which the code only carries along.
use adguard_sentinel.Base.{ℕ, String, Option, none, Bool, true, false, ◌==◌, if◌then◌else◌, some}

pub data Severity : Type 0 where
  warning error critical : Severity

pub Severity-discrete : Discrete Severity
Severity-discrete = hlevel

-- The derived order.
abbrev pub rank : Severity → ℕ
rank Severity.warning = 0
rank Severity.error = 1
rank Severity.critical = 2

-- `Severity::from_str`; the error carries the text.
unfoldable pub severity_from_str : String → Option Severity
severity_from_str value =
    if value == "warning"
    then some Severity.warning
    else if value == "error"
    then some Severity.error
    else if value == "critical"
    then some Severity.critical
    else none

pub data EvaluationOutcome : Type 0 where
  active clear not_evaluated : EvaluationOutcome

pub data ConditionLifecycle : Type 0 where
  clear pending firing : ConditionLifecycle

pub data AlertDeliveryState : Type 0 where
  never pending delivered suppressed failed unknown resolved : AlertDeliveryState

pub data TransitionKind : Type 0 where
  alert resolution : TransitionKind

-- The derived equalities.
abbrev pub is_active : EvaluationOutcome → Bool
is_active EvaluationOutcome.active = true
is_active _ = false

abbrev pub is_clear_outcome : EvaluationOutcome → Bool
is_clear_outcome EvaluationOutcome.clear = true
is_clear_outcome _ = false

abbrev pub is_not_evaluated : EvaluationOutcome → Bool
is_not_evaluated EvaluationOutcome.not_evaluated = true
is_not_evaluated _ = false

abbrev pub is_clear : ConditionLifecycle → Bool
is_clear ConditionLifecycle.clear = true
is_clear _ = false

abbrev pub is_firing : ConditionLifecycle → Bool
is_firing ConditionLifecycle.firing = true
is_firing _ = false

abbrev pub is_pending : AlertDeliveryState → Bool
is_pending AlertDeliveryState.pending = true
is_pending _ = false

abbrev pub is_delivered : AlertDeliveryState → Bool
is_delivered AlertDeliveryState.delivered = true
is_delivered _ = false

abbrev pub is_suppressed : AlertDeliveryState → Bool
is_suppressed AlertDeliveryState.suppressed = true
is_suppressed _ = false

abbrev pub is_alert : TransitionKind → Bool
is_alert TransitionKind.alert = true
is_alert TransitionKind.resolution = false

abbrev pub same_kind : TransitionKind → TransitionKind → Bool
same_kind TransitionKind.alert TransitionKind.alert = true
same_kind TransitionKind.resolution TransitionKind.resolution = true
same_kind _ _ = false

pub record ConditionEvaluation (V : Type 0) : Type 0 where
  pub id : String
  pub target_id : Option String
  pub kind : String
  pub reason : String
  pub severity : Severity
  pub outcome : EvaluationOutcome
  pub summary : String
  pub expected : V
  pub observed : V
  pub evidence_source : String
  pub observation_complete : Bool
  pub sustain_runs : ℕ
  pub recovery_runs : ℕ
  pub consecutive_active : ℕ
  pub consecutive_clear : ℕ
  pub lifecycle : ConditionLifecycle
  pub notification_state : AlertDeliveryState
  pub first_observed_at : Option String

pub record ConditionState : Type 0 where
  pub id : String
  pub target_id : Option String
  pub kind : String
  pub severity : Severity
  pub lifecycle : ConditionLifecycle
  pub first_observed_at : Option String
  pub last_observed_at : Option String
  pub consecutive_active : ℕ
  pub consecutive_clear : ℕ
  pub alert_delivery_state : AlertDeliveryState
  pub last_transition_run : Option String
  pub episode_id : Option String

unfoldable pub from_evaluation : {V : Type 0} → ConditionEvaluation V → ConditionState
from_evaluation e = record {
  id = e.id;
  target_id = e.target_id;
  kind = e.kind;
  severity = e.severity;
  lifecycle = ConditionLifecycle.clear;
  first_observed_at = none;
  last_observed_at = none;
  consecutive_active = 0;
  consecutive_clear = 0;
  alert_delivery_state = AlertDeliveryState.never;
  last_transition_run = none;
  episode_id = none;
}

pub record Finding (V : Type 0) : Type 0 where
  pub id : String
  pub target_id : Option String
  pub kind : String
  pub reason : String
  pub severity : Severity
  pub lifecycle : ConditionLifecycle
  pub first_observed_at : Option String
  pub consecutive_active : ℕ
  pub consecutive_clear : ℕ
  pub notification_state : AlertDeliveryState
  pub summary : String
  pub expected : V
  pub observed : V
  pub evidence_source : String
  pub observation_complete : Bool

-- `Finding::from(&ConditionEvaluation)`.
unfoldable pub finding_from : {V : Type 0} → ConditionEvaluation V → Finding V
finding_from e = record {
  id = e.id;
  target_id = e.target_id;
  kind = e.kind;
  reason = e.reason;
  severity = e.severity;
  lifecycle = e.lifecycle;
  first_observed_at = e.first_observed_at;
  consecutive_active = e.consecutive_active;
  consecutive_clear = e.consecutive_clear;
  notification_state = e.notification_state;
  summary = e.summary;
  expected = e.expected;
  observed = e.observed;
  evidence_source = e.evidence_source;
  observation_complete = e.observation_complete;
}

pub record ConditionTransition : Type 0 where
  pub condition_id : String
  pub kind : TransitionKind
  pub summary : String
