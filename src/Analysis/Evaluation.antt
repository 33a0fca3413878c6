-- ===== src/Analysis/Evaluation.antt =====
-- `Verdict`, `evaluation`, and the JSON values that evaluations carry as evidence.
use adguard_sentinel.Base.{
  ℕ, String, Option, none, some, Bool, true, List, [], ◌∷◌, if◌then◌else◌, take_chars,
}
use adguard_sentinel.Base.Int.{ℤ, pos}
use adguard_sentinel.Base.Float.{Float}
use adguard_sentinel.Hex.{encode}
use adguard_sentinel.Config.Types.{TargetConfig}
use adguard_sentinel.Model.Condition.{
  ConditionEvaluation, EvaluationOutcome, ConditionLifecycle, AlertDeliveryState, Severity,
}

-- The `serde_json::Value`s that the code builds; `F` is the type of its floats. An object is the
-- list of its fields in the order of the source.
mutual
  pub data Json (F : Type 0) : Type 0 where
    null : Json F
    boolean : Bool → Json F
    integer : ℤ → Json F
    float : F → Json F
    text : String → Json F
    array : Items F → Json F
    object : Fields F → Json F

  pub data Items (F : Type 0) : Type 0 where
    nil : Items F
    item : Json F → Items F → Items F

  pub data Fields (F : Type 0) : Type 0 where
    end : Fields F
    field : String → Json F → Fields F → Fields F

abbrev pub unsigned : {F : Type 0} → ℕ → Json F
unsigned n = Json.integer (pos n)

abbrev pub optional {ℓ} : {F : Type 0} {A : Type ℓ} → (A → Json F) → Option A → Json F
optional f none = Json.null
optional f (some a) = f a

abbrev pub texts : {F : Type 0} → List String → Items F
texts [] = Items.nil
texts (s ∷ ss) = Items.item (Json.text s) (texts ss)

pub record Verdict : Type 0 where
  pub outcome : EvaluationOutcome
  pub reason : String
  pub summary : String

unfoldable pub verdict_active : String → String → Verdict
verdict_active reason summary = record {
  outcome = EvaluationOutcome.active;
  reason = reason;
  summary = summary;
}

unfoldable pub verdict_clear : String → String → Verdict
verdict_clear reason summary = record {
  outcome = EvaluationOutcome.clear;
  reason = reason;
  summary = summary;
}

unfoldable pub verdict_not_evaluated : String → String → Verdict
verdict_not_evaluated reason summary = record {
  outcome = EvaluationOutcome.not_evaluated;
  reason = reason;
  summary = summary;
}

unfoldable pub from_flag : Bool → String × String → String × String → Verdict
unfolding verdict_active verdict_clear
from_flag active when_active when_clear =
    if active
    then verdict_active when_active.0 when_active.1
    else verdict_clear when_clear.0 when_clear.1

module _ {V : Type 0} where
  unfoldable pub evaluation :
      String
      → Option String
      → String
      → Severity
      → Verdict
      → V
      → V
      → String
      → Bool
      → ℕ
      → ℕ
      → ConditionEvaluation V
  evaluation id target_id kind severity verdict expected observed evidence_source complete sustain
        recovery =
      record {
        id = id;
        target_id = target_id;
        kind = kind;
        reason = verdict.reason;
        severity = severity;
        outcome = verdict.outcome;
        summary = verdict.summary;
        expected = expected;
        observed = observed;
        evidence_source = evidence_source;
        observation_complete = complete;
        sustain_runs = sustain;
        recovery_runs = recovery;
        consecutive_active = 0;
        consecutive_clear = 0;
        lifecycle = ConditionLifecycle.clear;
        notification_state = AlertDeliveryState.never;
        first_observed_at = none;
      }

  unfoldable pub boolean_evaluation :
      String
      → TargetConfig
      → String
      → Severity
      → Verdict
      → V
      → V
      → String
      → ℕ
      → ℕ
      → ConditionEvaluation V
  unfolding evaluation
  boolean_evaluation id target kind severity verdict expected observed evidence sustain recovery =
      evaluation id (some (TargetConfig.id target)) kind severity verdict expected observed evidence
        true sustain recovery

module _ (fl : Float) where
  open fl use {F, lt}

  unfoldable pub threshold_evaluation :
      String
      → TargetConfig
      → String
      → F
      → F
      → String
      → String
      → String
      → ℕ
      → ℕ
      → ConditionEvaluation (Json F)
  unfolding evaluation from_flag
  threshold_evaluation id target kind observed maximum active_summary clear_summary evidence sustain
        recovery =
      evaluation id (some (TargetConfig.id target)) kind Severity.warning
        (from_flag (lt maximum observed) ("above_threshold", active_summary)
          ("within_threshold", clear_summary))
        (Json.object (
          Fields.field "maximum_seconds" (Json.float maximum)
            (Fields.field "comparison" (Json.text "strictly_greater") Fields.end)))
        (Json.object (Fields.field "seconds" (Json.float observed) Fields.end)) evidence true
        sustain recovery

-- `short_hash`: the first sixteen characters of a digest; `Sha256::digest` is the parameter.
unfoldable pub short_hash : (String → List ℕ) → String → String
short_hash sha256 value = take_chars 16 (encode (sha256 value))
