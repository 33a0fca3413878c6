-- ===== src/Cli/Exit.antt =====
-- The status and the exit code of a run, and the profile of the group (apps/sentinel-cli/src/main.rs).
use adguard_sentinel.Base.{
  ℕ, String, Option, Bool, true, false, ◌&&◌, List, leb, eqb, if◌then◌else◌, ◌==◌, any, find_by,
  first?, lookup, not, is_empty, length, filter_by,
}
use adguard_sentinel.Base.Opt.{◌>>=◌}
use adguard_sentinel.Config.Types.{Config, TargetConfig, BehavioralBaselineConfig, ConditionProfile}
use adguard_sentinel.Model.Condition.{ConditionEvaluation, Severity, rank, is_active}
use adguard_sentinel.Model.Observation.{TargetReport}
use adguard_sentinel.Model.Run.{RunStatus, DeliveryActivity}

pub data FailOn : Type 0 where
  never warning error critical : FailOn

-- `FailOn::matches`; the severities are ordered by their rank.
unfoldable pub matches : FailOn → Severity → Bool
matches FailOn.never severity = false
matches FailOn.warning severity = true
matches FailOn.error severity = leb (rank Severity.error) (rank severity)
matches FailOn.critical severity = leb (rank Severity.critical) (rank severity)

unfoldable pub fail_on_match : {V : Type 0} → FailOn → List (ConditionEvaluation V) → Bool
unfolding matches
fail_on_match fail_on = any (λ e. is_active e.outcome && matches fail_on e.severity)

-- `health_met`.
abbrev pub health_met : ℕ → ℕ → Bool
health_met minimum complete = leb minimum complete

unfoldable pub initial_exit : Bool → Bool → Bool → ℕ
initial_exit recovered health matched =
    if recovered then 4 else if health then (if matched then 1 else 0) else 3

-- `complete_targets`.
abbrev pub complete_targets : {F : Type 0} → List (TargetReport F) → ℕ
complete_targets targets = length (filter_by (λ r. TargetReport.complete r) targets)

module _ {F V : Type 0} where
  -- `initial_exit` of a run, after the attempts that were recovered before it.
  unfoldable pub exit_before_delivery :
      List DeliveryActivity → ℕ → List (TargetReport F) → FailOn → List (ConditionEvaluation V) → ℕ
  unfolding initial_exit fail_on_match
  exit_before_delivery recovered minimum targets fail_on evaluations =
      initial_exit (not (is_empty recovered)) (health_met minimum (complete_targets targets))
        (fail_on_match fail_on evaluations)

-- The code after the delivery of the messages.
unfoldable pub final_exit : Bool → ℕ → ℕ
final_exit notification_failed initial = if notification_failed then 4 else initial

unfoldable pub run_status : ℕ → ℕ → ℕ → RunStatus
run_status minimum complete configured =
    if health_met minimum complete
    then (if eqb complete configured then RunStatus.complete else RunStatus.partial)
    else RunStatus.unhealthy

unfoldable pub exit_reason : ℕ → String
exit_reason code =
    if eqb code 0
    then "observation completed"
    else if eqb code 1
    then "finding met fail-on threshold"
    else if eqb code 2
    then "invocation or configuration error"
    else if eqb code 3
    then "minimum complete target count was not met"
    else if eqb code 4
    then "notification delivery was not confirmed"
    else if eqb code 5
    then "state persistence failed"
    else "reserved exit code"

-- An error is `none`.
unfoldable pub baseline_profile : Config → BehavioralBaselineConfig → Option ConditionProfile
baseline_profile config baseline = do
  id ← first? baseline.target_ids
  target ← find_by (λ t. TargetConfig.id t == id) config.targets
  lookup (TargetConfig.condition_profile target) config.condition_profiles
