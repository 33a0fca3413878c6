-- ===== src/Analysis/Report.antt =====
-- What every evaluation of a target has in common (crates/sentinel-core/src/analysis.rs).
use adguard_sentinel.Base.{
  ℕ, ◌≡◌, refl, String, ◌<>◌, Option, none, some, Bool, true, false, List, [], ◌∷◌, map, ◌≢◌, ◌&&◌,
  arith, is_some, inl, inr, Option-cases,
}
use adguard_sentinel.Base.Int.{ℤ}
use adguard_sentinel.Base.Float.{Float}
use adguard_sentinel.Config.Types.{TargetConfig, ConditionProfile, PolicyConfig}
use adguard_sentinel.Model.Condition.{
  ConditionEvaluation, EvaluationOutcome, ConditionLifecycle, AlertDeliveryState,
}
use adguard_sentinel.Model.Observation.{TargetReport, TargetStatus}
use adguard_sentinel.Analysis.Target.{
  evaluate_target, evaluate_observed, evaluate_target_failure, failure_of,
}

-- An evaluation that no latch has advanced yet, of the given target.
pub IsFresh : {V : Type 0} → Option String → ConditionEvaluation V → Type 0
IsFresh target_id e =
    (e.target_id ≡ target_id)
    × (e.consecutive_active ≡ 0)
    × (e.consecutive_clear ≡ 0)
    × (e.lifecycle ≡ ConditionLifecycle.clear)
    × (e.notification_state ≡ AlertDeliveryState.never)
    × (e.first_observed_at ≡ none)

-- What a condition says first of itself: its identity, its kind, its outcome.
abbrev pub signature : {V : Type 0} → ConditionEvaluation V → String × String × EvaluationOutcome
signature e = (e.id, e.kind, e.outcome)

abbrev pub first_signature :
    {V : Type 0} → List (ConditionEvaluation V) → Option (String × String × EvaluationOutcome)
first_signature [] = none
first_signature (e ∷ es) = some (signature e)

-- Whether a report has all that `evaluate_target` reads.
abbrev pub is_usable : {F : Type 0} → TargetReport F → Bool
is_usable report = report.complete && is_some report.operational

failure_of-some :
    (target : TargetConfig) (profile : ConditionProfile) (status : TargetStatus)
    → status ≢ TargetStatus.complete
    → is_some (failure_of target profile status) ≡ true
unfolding failure_of
failure_of-some target profile status h = ground arith

module _ {F : Type 0} where
  failure-signature :
      (target : TargetConfig) (profile : ConditionProfile) (report : TargetReport F)
      → report.status ≢ TargetStatus.complete
      → map signature (evaluate_target_failure target profile report)
        ≡ ("target:" <> (target.id <> ":api"), "api", EvaluationOutcome.active) ∷ []
  unfolding evaluate_target_failure
  failure-signature target profile report h =
      elim (Option-cases (failure_of target profile report.status)) [
        | inl e ↦ ground (arith, e, failure_of-some target profile report.status h)
        | inr (f, e) ↦ rw (e, map) refl
      ]

module _ (fl : Float) (sha256 : String → List ℕ) (canonical_ip : String → Option String) where
  open fl use {F}

  -- A target that failed reports its `api` condition, active, and nothing else.
  pub failed-api :
      (target : TargetConfig) (policy : Option PolicyConfig) (profile : ConditionProfile)
      (report : TargetReport F) (now : ℤ)
      → report.status ≢ TargetStatus.complete
      → is_usable report ≡ false
      → map signature (evaluate_target fl sha256 canonical_ip target policy profile report now)
        ≡ ("target:" <> (target.id <> ":api"), "api", EvaluationOutcome.active) ∷ []
  unfolding evaluate_target
  failed-api target policy profile report now h unusable =
      ground (arith, failure-signature target profile report h)

  -- A target that answered reports the same condition first, and then it is clear.
  pub answered-api :
      (target : TargetConfig) (policy : Option PolicyConfig) (profile : ConditionProfile)
      (report : TargetReport F) (now : ℤ)
      → is_usable report ≡ true
      → first_signature (evaluate_target fl sha256 canonical_ip target policy profile report now)
        ≡ some ("target:" <> (target.id <> ":api"), "api", EvaluationOutcome.clear)
  unfolding evaluate_target evaluate_observed
  answered-api target policy profile report now usable = ground arith

  -- A target whose report says complete and holds no observation has no condition at all.
  pub silent :
      (target : TargetConfig) (policy : Option PolicyConfig) (profile : ConditionProfile)
      (report : TargetReport F) (now : ℤ)
      → report.status ≡ TargetStatus.complete
      → is_usable report ≡ false
      → evaluate_target fl sha256 canonical_ip target policy profile report now ≡ []
  unfolding evaluate_target evaluate_target_failure failure_of
  silent target policy profile report now h unusable = ground arith
