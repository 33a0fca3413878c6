-- ===== src/Analysis/Filter.antt =====
-- `evaluate_filters` (crates/sentinel-core/src/analysis.rs); `Sha256::digest` is the parameter.
use adguard_sentinel.Base.{
  ℕ, ◌*◌, String, ◌<>◌, Option, none, some, Bool, true, not, List, map, if◌then◌else◌, lookup,
  unwrap_or,
}
use mathlib.Core.Bool.{beq}
use adguard_sentinel.Base.Int.{ℤ, pos, saturating_sub_i64, ltb_ℤ}
use adguard_sentinel.Config.Types.{TargetConfig, ConditionProfile, PolicyConfig, RequiredFilter}
use adguard_sentinel.Model.Condition.{ConditionEvaluation, Severity}
use adguard_sentinel.Model.Observation.{TargetReport, FilterObservation}
use adguard_sentinel.Analysis.Evaluation.{
  Json, Fields, unsigned, optional, Verdict, verdict_active, verdict_clear, evaluation, short_hash,
}
use adguard_sentinel.Analysis.Policy.{filters_by_url}

-- How old a required filter may be, in seconds.
abbrev pub maximum_age : RequiredFilter → ℤ
maximum_age required = pos (unwrap_or required.maximum_age_hours 0 * 3600)

unfoldable pub is_stale : RequiredFilter → FilterObservation → ℤ → Bool
is_stale required filter now = elim (FilterObservation.last_updated_unix_seconds filter) [
  | none ↦ true
  | some updated ↦ ltb_ℤ (maximum_age required) (saturating_sub_i64 now updated)
]

abbrev filter_clear : TargetConfig → Verdict
filter_clear target =
    verdict_clear "matches_policy" (target.name <> " required filter matches declared policy")

unfoldable pub filter_verdict :
    TargetConfig → RequiredFilter → Option FilterObservation → ℤ → Verdict
unfolding verdict_active verdict_clear is_stale
filter_verdict target required none now =
    verdict_active "missing" (target.name <> " is missing a required filter")
filter_verdict target required (some filter) now =
    if not (beq filter.enabled required.enabled)
    then verdict_active "state_drift" (target.name <> " has a required filter in the wrong state")
    else if required.enabled
    then (if is_stale required filter now
        then verdict_active "stale" (target.name <> " has a stale required filter")
        else filter_clear target)
    else filter_clear target

module _ {F : Type 0} where
  unfoldable pub filter_value : RequiredFilter → Option FilterObservation → ℤ → Json F
  filter_value required none now = Json.null
  filter_value required (some filter) now =
      let age =
        if beq filter.enabled required.enabled
        then (if required.enabled
            then Fields.field "age_seconds"
                (optional (λ updated. Json.integer (saturating_sub_i64 now updated))
                  filter.last_updated_unix_seconds)
                Fields.end
            else Fields.end)
        else Fields.end in
      Json.object (
        Fields.field "enabled" (Json.boolean filter.enabled)
          (Fields.field "last_updated" (optional Json.text filter.last_updated) age))

module _ (sha256 : String → List ℕ) where
  unfoldable pub evaluate_filter :
      {F : Type 0}
      → TargetConfig
      → ConditionProfile
      → List (String × FilterObservation)
      → ℤ
      → RequiredFilter
      → ConditionEvaluation (Json F)
  unfolding filter_verdict filter_value evaluation short_hash
  evaluate_filter target profile observed now required =
      let filter = lookup (RequiredFilter.url required) observed in
      evaluation
        ("target:"
          <> (TargetConfig.id target
              <> (":filter:" <> short_hash sha256 (RequiredFilter.url required))))
        (some (TargetConfig.id target)) "required_filter" Severity.warning
        (filter_verdict target required filter now)
        (Json.object (
          Fields.field "url" (Json.text (RequiredFilter.url required)) (
            Fields.field "enabled" (Json.boolean (RequiredFilter.enabled required)) (
              Fields.field "maximum_age_hours"
                (optional unsigned (RequiredFilter.maximum_age_hours required)) Fields.end))))
        (filter_value required filter now) "GET /control/filtering/status filters" true
        profile.policy_drift_sustain_runs profile.recovery_runs

  unfoldable pub evaluate_filters :
      {F : Type 0}
      → TargetConfig
      → PolicyConfig
      → ConditionProfile
      → TargetReport F
      → ℤ
      → List (ConditionEvaluation (Json F))
  unfolding evaluate_filter filters_by_url
  evaluate_filters target policy profile report now =
      map (evaluate_filter target profile (filters_by_url (TargetReport.filters report)) now)
        (PolicyConfig.filters policy)
