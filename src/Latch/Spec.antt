-- ===== src/Latch/Spec.antt =====
-- What a call of `advance_condition` decides, in one equation for each thing that it decides.
use adguard_sentinel.Base.{
  ◌≤◌, ◌≡◌, Option, none, some, true, ◌↔◌, ◌⊎◌, ◌≢◌, arith, saturating_add, u32_max,
}
use adguard_sentinel.Model.Condition.{
  ConditionState, ConditionTransition, EvaluationOutcome, ConditionLifecycle, AlertDeliveryState,
  TransitionKind,
}
use adguard_sentinel.Latch.Advance.{Seen, state_after, transition_after}

abbrev pub kind_of : Option ConditionTransition → Option TransitionKind
kind_of none = none
kind_of (some t) = some t.kind

module _ {V : Type 0} (s : ConditionState) (o : Seen V) where
  -- An alert is announced by exactly the call that meets an active evaluation in a latch that does
  -- not fire yet, and whose count of consecutive active runs, this one included and saturated at
  -- `u32::MAX`, has reached `sustain_runs`.
  pub alert_iff : (kind_of (transition_after s o) ≡ some TransitionKind.alert) ↔ (
      (o.evaluation.outcome ≡ EvaluationOutcome.active)
      × (s.lifecycle ≢ ConditionLifecycle.firing)
      × (o.evaluation.sustain_runs ≤ saturating_add u32_max s.consecutive_active 1))
  unfolding transition_after
  alert_iff = ground arith

  -- A resolution is announced by exactly the call that meets a clear evaluation in a firing latch
  -- whose count of consecutive clear runs, this one included and saturated at `u32::MAX`, has
  -- reached `recovery_runs`, and whose alert was delivered, or was suppressed where this run
  -- suppresses too.
  pub resolution_iff : (kind_of (transition_after s o) ≡ some TransitionKind.resolution) ↔ (
      (o.evaluation.outcome ≡ EvaluationOutcome.clear)
      × (s.lifecycle ≡ ConditionLifecycle.firing)
      × (o.evaluation.recovery_runs ≤ saturating_add u32_max s.consecutive_clear 1)
      × ((s.alert_delivery_state ≡ AlertDeliveryState.delivered)
          ⊎ ((o.suppress ≡ true) × (s.alert_delivery_state ≡ AlertDeliveryState.suppressed))))
  unfolding transition_after
  resolution_iff = ground arith

  -- An evaluation that was not evaluated announces nothing, and leaves the latch as it was but for
  -- the kind and the severity, which it copies.
  pub not_evaluated_freezes :
      o.evaluation.outcome ≡ EvaluationOutcome.not_evaluated
      → (state_after s o ≡ record s { kind = o.evaluation.kind; severity = o.evaluation.severity })
        × (transition_after s o ≡ none)
  unfolding transition_after state_after
  not_evaluated_freezes h = ground arith
