-- ===== src/Analysis/Target.antt =====
-- `evaluate_target_failure` and `evaluate_target` (crates/sentinel-core/src/analysis.rs).
use adguard_sentinel.Base.{
  ℕ, String, ◌<>◌, Option, none, some, Bool, true, false, not, List, [], ◌∷◌, ◌++◌, if◌then◌else◌,
}
use adguard_sentinel.Base.Int.{ℤ}
use adguard_sentinel.Base.Float.{Float}
use adguard_sentinel.Config.Types.{TargetConfig, ConditionProfile, PolicyConfig}
use adguard_sentinel.Model.Condition.{ConditionEvaluation, Severity}
use adguard_sentinel.Model.Observation.{TargetReport, TargetStatus, OperationalObservation}
use adguard_sentinel.Analysis.Evaluation.{
  Json, Fields, optional, Verdict, verdict_active, verdict_clear, evaluation, boolean_evaluation,
  threshold_evaluation,
}
use adguard_sentinel.Analysis.Policy.{evaluate_dns_policy}
use adguard_sentinel.Analysis.Filter.{evaluate_filters}
use adguard_sentinel.Analysis.Rewrite.{evaluate_rewrites}

-- The serialized name of a status.
unfoldable pub status_text : TargetStatus → String
status_text TargetStatus.complete = "complete"
status_text TargetStatus.authentication_rejected = "authentication_rejected"
status_text TargetStatus.authentication_cooldown = "authentication_cooldown"
status_text TargetStatus.unavailable = "unavailable"
status_text TargetStatus.invalid_response = "invalid_response"
status_text TargetStatus.unsupported_version = "unsupported_version"
status_text TargetStatus.response_too_large = "response_too_large"

-- What a failed target's condition says: its reason, its severity, its sustain count, its summary.
pub record Failure : Type 0 where
  pub reason : String
  pub severity : Severity
  pub sustain : ℕ
  pub summary : String

unfoldable pub failure_of : TargetConfig → ConditionProfile → TargetStatus → Option Failure
failure_of target profile TargetStatus.complete = none
failure_of target profile TargetStatus.unavailable = some (record {
  reason = "unavailable";
  severity = Severity.warning;
  sustain = profile.api_unavailable_sustain_runs;
  summary = target.name <> " AdGuard API is unavailable";
})
failure_of target profile TargetStatus.unsupported_version = some (record {
  reason = "unsupported_version";
  severity = Severity.error;
  sustain = profile.unsupported_version_sustain_runs;
  summary = target.name <> " returned an unsupported AdGuard Home version";
})
failure_of target profile status = elim status [
  | TargetStatus.authentication_rejected ↦ authentication
  | TargetStatus.authentication_cooldown ↦ authentication
  | _ ↦ some (record {
    reason = "invalid_response";
    severity = Severity.error;
    sustain = profile.invalid_response_sustain_runs;
    summary = target.name <> " returned an incomplete or invalid API response";
  })
]
  where
    authentication : Option Failure
    authentication = some (record {
      reason = "authentication_rejected";
      severity = Severity.critical;
      sustain = profile.authentication_rejected_sustain_runs;
      summary = target.name <> " API authentication failed";
    })

-- The declared value decides the outcome; the reason names the observed state.
unfoldable pub protection_verdict : TargetConfig → Bool → Bool → Verdict
unfolding verdict_active verdict_clear
protection_verdict target true false =
    verdict_active "disabled" (target.name <> " AdGuard protection is disabled")
protection_verdict target false true =
    verdict_active "enabled"
      (target.name <> " AdGuard protection is enabled, but policy declares it disabled")
protection_verdict target true true =
    verdict_clear "enabled" (target.name <> " AdGuard protection is enabled")
protection_verdict target false false =
    verdict_clear "disabled" (target.name <> " AdGuard protection is disabled, as policy declares")

module _ {F : Type 0} where
  unfoldable pub evaluate_target_failure :
      TargetConfig → ConditionProfile → TargetReport F → List (ConditionEvaluation (Json F))
  unfolding evaluation failure_of status_text verdict_active
  evaluate_target_failure target profile report =
      elim (failure_of target profile (TargetReport.status report)) [
        | none ↦ []
        | some f ↦
            evaluation ("target:" <> (target.id <> ":api")) (some (TargetConfig.id target)) "api"
              (Failure.severity f) (verdict_active (Failure.reason f) (Failure.summary f))
              (Json.object (Fields.field "complete" (Json.boolean true) Fields.end))
              (Json.object (
                Fields.field "status" (Json.text (status_text (TargetReport.status report))) (
                  Fields.field "error_kind" (optional Json.text (TargetReport.error_kind report)) (
                    Fields.field "error_detail"
                      (optional Json.text (TargetReport.error_detail report)) Fields.end))))
              "AdGuard request boundary" false (Failure.sustain f) profile.recovery_runs
            ∷ []
      ]

  abbrev evaluate_available : TargetConfig → ConditionProfile → ConditionEvaluation (Json F)
  evaluate_available target profile =
      let complete = Json.object (Fields.field "complete" (Json.boolean true) Fields.end) in
      evaluation ("target:" <> (target.id <> ":api")) (some (TargetConfig.id target)) "api"
        Severity.warning (verdict_clear "available" (target.name <> " AdGuard API is available"))
        complete complete "GET /control/status and allowlisted observations" true
        profile.api_unavailable_sustain_runs profile.recovery_runs

  unfoldable pub evaluate_protection :
      TargetConfig → ConditionProfile → Option Bool → Bool → List (ConditionEvaluation (Json F))
  unfolding boolean_evaluation protection_verdict
  evaluate_protection target profile none observed = []
  evaluate_protection target profile (some declared) observed =
      boolean_evaluation ("target:" <> (target.id <> ":protection")) target "protection"
        Severity.critical (protection_verdict target declared observed) (Json.boolean declared)
        (Json.boolean observed) "GET /control/status protection_enabled"
        profile.protection_disabled_sustain_runs profile.recovery_runs
      ∷ []

abbrev declared_protection : Option PolicyConfig → Option Bool
declared_protection none = none
declared_protection (some policy) = PolicyConfig.protection_enabled policy

module _ (fl : Float) (sha256 : String → List ℕ) (canonical_ip : String → Option String) where
  open fl use {F, of_u64, div, literal}

  abbrev processing_latency :
      TargetConfig → ConditionProfile → OperationalObservation F → ConditionEvaluation (Json F)
  processing_latency target profile operational =
      threshold_evaluation fl ("target:" <> (target.id <> ":processing-latency")) target
        "processing_latency" operational.average_processing_seconds
        (div (of_u64 profile.processing_latency_ms) (literal 1000 0))
        (target.name <> " DNS processing is persistently slow")
        (target.name <> " DNS processing latency is within threshold")
        "GET /control/stats avg_processing_time" profile.processing_latency_sustain_runs
        profile.recovery_runs

  abbrev evaluate_policy :
      TargetConfig
      → Option PolicyConfig
      → ConditionProfile
      → TargetReport F
      → ℤ
      → List (ConditionEvaluation (Json F))
  evaluate_policy target none profile report now = []
  evaluate_policy target (some policy) profile report now =
      evaluate_dns_policy target policy profile report
      ++ (evaluate_filters sha256 target policy profile report now
          ++ evaluate_rewrites sha256 canonical_ip target policy profile report)

  unfoldable pub evaluate_observed :
      TargetConfig
      → Option PolicyConfig
      → ConditionProfile
      → TargetReport F
      → OperationalObservation F
      → ℤ
      → List (ConditionEvaluation (Json F))
  unfolding evaluation verdict_clear evaluate_protection threshold_evaluation evaluate_dns_policy
      evaluate_filters evaluate_rewrites
  evaluate_observed target policy profile report operational now =
      evaluate_available target profile
        ∷ evaluate_protection target profile (declared_protection policy)
            (OperationalObservation.protection_enabled operational)
      ++ processing_latency target profile operational
        ∷ evaluate_policy target policy profile report now

  unfoldable pub evaluate_target :
      TargetConfig
      → Option PolicyConfig
      → ConditionProfile
      → TargetReport F
      → ℤ
      → List (ConditionEvaluation (Json F))
  unfolding evaluate_target_failure evaluate_observed
  evaluate_target target policy profile report now =
      if not (TargetReport.complete report)
      then evaluate_target_failure target profile report
      else elim (TargetReport.operational report) [
        | none ↦ evaluate_target_failure target profile report
        | some operational ↦ evaluate_observed target policy profile report operational now
      ]
