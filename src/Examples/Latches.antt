-- ===== src/Examples/Latches.antt =====
-- Runs of one condition's latch (crates/sentinel-core/src/analysis.rs, `advance_condition`).
use adguard_sentinel.Base.{
  ℕ, ◌≡◌, refl, String, none, some, false, List, [], ◌∷◌, length, arith, inl,
}
use mathlib.Core.List.{Memᴰ}
use adguard_sentinel.Model.Condition.{
  ConditionEvaluation, ConditionState, EvaluationOutcome, ConditionLifecycle, AlertDeliveryState,
  TransitionKind, Severity, from_evaluation,
}
use adguard_sentinel.Latch.Advance.{
  Seen, Event, observed, settled, state_after, transition_after, play, state_of, settle,
}
use adguard_sentinel.Latch.Spec.{kind_of, resolution_iff}
use adguard_sentinel.Latch.Invariant.{IsLatch, from_evaluation-IsLatch, play-IsLatch}
use adguard_sentinel.Latch.Episodes.{Answered, play-Answered, resolution_needs_delivery}
use adguard_sentinel.Latch.History.{
  counters_count, alert-streak_iff, not_evaluated_skipped, alerts_once,
}

-- The `api` condition of a target, as a run evaluates it; it fires after two runs.
abbrev pub api : EvaluationOutcome → ConditionEvaluation ℕ
api outcome = record {
  id = "target:one:api";
  target_id = some "one";
  kind = "api";
  reason = "unavailable";
  severity = Severity.warning;
  outcome = outcome;
  summary = "one AdGuard API is unavailable";
  expected = 0;
  observed = 0;
  evidence_source = "AdGuard request boundary";
  observation_complete = false;
  sustain_runs = 2;
  recovery_runs = 1;
  consecutive_active = 0;
  consecutive_clear = 0;
  lifecycle = ConditionLifecycle.clear;
  notification_state = AlertDeliveryState.never;
  first_observed_at = none;
}

abbrev seen : EvaluationOutcome → String → Seen ℕ
seen outcome run = record {
  evaluation = api outcome;
  observed_at = run;
  run_id = run;
  suppress = false;
}

abbrev fails : String → Event ℕ
fails run = observed (seen EvaluationOutcome.active run)

abbrev unknown : String → Event ℕ
unknown run = observed (seen EvaluationOutcome.not_evaluated run)

abbrev first : ConditionEvaluation ℕ
first = api EvaluationOutcome.active

abbrev delivery : Event ℕ
delivery = settled "r1" AlertDeliveryState.delivered

-- Two runs fail, and the alert is delivered.
abbrev outage : List (Event ℕ)
outage = fails "r1" ∷ unknown "r2" ∷ fails "r3" ∷ delivery ∷ []

abbrev pub fired : ConditionState
fired = (play (from_evaluation first) outage).0

play-IsLatch_example : IsLatch fired
unfolding play state_of state_after settle from_evaluation
play-IsLatch_example =
    play-IsLatch (from_evaluation first) outage (from_evaluation-IsLatch first)
      (tt, (tt, (tt, (((λ e. cc), (λ e. cc)), tt))))

play-Answered_example : Answered false (play (from_evaluation first) outage).1
unfolding from_evaluation
play-Answered_example = play-Answered (from_evaluation first) outage

resolution_needs_delivery_example : Memᴰ delivery outage
unfolding play state_of state_after transition_after settle from_evaluation
resolution_needs_delivery_example =
    resolution_needs_delivery first outage (seen EvaluationOutcome.clear "r4") "r1" refl refl refl

resolution_iff_example :
    kind_of (transition_after fired (seen EvaluationOutcome.clear "r4"))
    ≡ some TransitionKind.resolution
unfolding play state_of state_after settle from_evaluation
resolution_iff_example =
    (resolution_iff fired (seen EvaluationOutcome.clear "r4")).1 (refl, refl, omega arith, inl refl)

counters_count_example : (fired.consecutive_active ≡ 2) × (fired.consecutive_clear ≡ 0)
counters_count_example =
    counters_count first (delivery ∷ fails "r3" ∷ unknown "r2" ∷ fails "r1" ∷ [])

alert-streak_iff_example :
    kind_of (
      transition_after
        (play (from_evaluation first) (fails "r1" ∷ [])).0
        (seen EvaluationOutcome.active "r2"))
    ≡ some TransitionKind.alert
unfolding play state_of state_after from_evaluation
alert-streak_iff_example =
    (alert-streak_iff first (fails "r1" ∷ []) (seen EvaluationOutcome.active "r2") (omega arith)).1
      (refl, (λ e. cc), omega arith)

not_evaluated_skipped_example :
    play (from_evaluation first) outage
    ≡ play (from_evaluation first) (fails "r1" ∷ fails "r3" ∷ delivery ∷ [])
unfolding from_evaluation
not_evaluated_skipped_example =
    not_evaluated_skipped "api" Severity.warning (from_evaluation first) outage refl refl
      ((refl, refl), ((refl, refl), ((refl, refl), (tt, tt))))

alerts_once_example :
    length (play (from_evaluation first) (fails "r1" ∷ fails "r2" ∷ delivery ∷ fails "r3" ∷ [])).1
    ≡ 1
alerts_once_example =
    alerts_once first 2 (fails "r1" ∷ fails "r2" ∷ delivery ∷ fails "r3" ∷ []) (omega arith)
      (omega arith) ((refl, refl), ((refl, refl), (tt, ((refl, refl), tt))))
