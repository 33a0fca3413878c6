-- ===== src/Latch/Advance.antt =====
-- `advance_condition`, and a sequence of its calls for one condition.
use adguard_sentinel.Base.{
  String, Option, none, some, Bool, not, ◌&&◌, ◌||◌, List, [], ◌∷◌, leb, saturating_add, u32_max,
  if◌then◌else◌, is_none, ◌==◌,
}
use adguard_sentinel.Model.Condition.{
  ConditionEvaluation, ConditionState, ConditionTransition, EvaluationOutcome, ConditionLifecycle,
  AlertDeliveryState, TransitionKind, is_clear, is_firing, is_delivered, is_suppressed,
}

abbrev queued_state : Bool → AlertDeliveryState
queued_state suppress =
    if suppress then AlertDeliveryState.suppressed else AlertDeliveryState.pending

-- The first statements of the active arm: a new episode, the counters, the first sighting.
abbrev count_active : ConditionState → String → String → ConditionState
count_active s observed_at run_id = record s {
  episode_id = if is_clear s.lifecycle then some run_id else s.episode_id;
  alert_delivery_state =
      if is_clear s.lifecycle then AlertDeliveryState.never else s.alert_delivery_state;
  consecutive_clear = 0;
  consecutive_active = saturating_add u32_max s.consecutive_active 1;
  first_observed_at = if is_none s.first_observed_at then some observed_at else s.first_observed_at;
}

abbrev pub cons_option :
    Option ConditionTransition → List ConditionTransition → List ConditionTransition
cons_option none ts = ts
cons_option (some t) ts = t ∷ ts

module _ {V : Type 0} where
  unfoldable pub copy_state_to_evaluation :
      ConditionState → ConditionEvaluation V → ConditionEvaluation V
  copy_state_to_evaluation state evaluation = record evaluation {
    consecutive_active = state.consecutive_active;
    consecutive_clear = state.consecutive_clear;
    lifecycle = state.lifecycle;
    notification_state = state.alert_delivery_state;
    first_observed_at = state.first_observed_at;
  }

  abbrev announce : TransitionKind → ConditionEvaluation V → ConditionTransition
  announce kind evaluation = record {
    condition_id = evaluation.id;
    kind = kind;
    summary = evaluation.summary;
  }

  unfoldable pub advance_active :
      ConditionState
      → ConditionEvaluation V
      → String
      → String
      → Bool
      → ConditionState × Option ConditionTransition
  advance_active state evaluation observed_at run_id suppress =
      let s = count_active state observed_at run_id in
      if not (is_firing s.lifecycle) && leb evaluation.sustain_runs s.consecutive_active
      then (
        record s {
          lifecycle = ConditionLifecycle.firing;
          last_transition_run = some run_id;
          alert_delivery_state = queued_state suppress;
        },
        some (announce TransitionKind.alert evaluation),
      )
      else (
        record s {
          lifecycle = if is_clear s.lifecycle then ConditionLifecycle.pending else s.lifecycle;
        },
        none,
      )

  unfoldable pub advance_clear :
      ConditionState
      → ConditionEvaluation V
      → String
      → Bool
      → ConditionState × Option ConditionTransition
  advance_clear state evaluation run_id suppress =
      let was_firing = is_firing state.lifecycle in
      let s = record state {
        consecutive_active = 0;
        consecutive_clear = saturating_add u32_max state.consecutive_clear 1;
      } in
      if leb evaluation.recovery_runs s.consecutive_clear
      then (let r = record s { lifecycle = ConditionLifecycle.clear; first_observed_at = none } in
          if was_firing
            && (is_delivered r.alert_delivery_state
                || (suppress && is_suppressed r.alert_delivery_state))
          then (
            record r {
              last_transition_run = some run_id;
              alert_delivery_state = queued_state suppress;
            },
            some (announce TransitionKind.resolution evaluation),
          )
          else (r, none))
      else (s, none)

  -- The `match` on the outcome, after the assignments that precede it.
  advance_outcome :
      EvaluationOutcome
      → ConditionState
      → ConditionEvaluation V
      → String
      → String
      → Bool
      → ConditionState × Option ConditionTransition
  unfolding advance_active advance_clear
  advance_outcome EvaluationOutcome.not_evaluated state evaluation observed_at run_id suppress =
      (state, none)
  advance_outcome EvaluationOutcome.active state evaluation observed_at run_id suppress =
      advance_active (record state { last_observed_at = some observed_at }) evaluation observed_at
        run_id suppress
  advance_outcome EvaluationOutcome.clear state evaluation observed_at run_id suppress =
      advance_clear (record state { last_observed_at = some observed_at }) evaluation run_id
        suppress

  unfoldable pub advance :
      ConditionState
      → ConditionEvaluation V
      → String
      → String
      → Bool
      → ConditionState × Option ConditionTransition
  unfolding advance_outcome
  advance state evaluation observed_at run_id suppress =
      advance_outcome evaluation.outcome
        (record state { kind = evaluation.kind; severity = evaluation.severity }) evaluation
        observed_at run_id suppress

  unfoldable pub advance_condition :
      ConditionState
      → ConditionEvaluation V
      → String
      → String
      → Bool
      → ConditionState × ConditionEvaluation V × Option ConditionTransition
  unfolding advance copy_state_to_evaluation
  advance_condition state evaluation observed_at run_id suppress =
      let (s, transition) = advance state evaluation observed_at run_id suppress in
      (s, copy_state_to_evaluation s evaluation, transition)

-- `UPDATE condition_state SET alert_delivery_state = ?3 WHERE condition_id = ?1 AND episode_id = ?2`
-- at the row of this condition: the fate of a message of one episode reaches that episode only.
unfoldable pub settle : ConditionState → String → AlertDeliveryState → ConditionState
settle s episode d = elim s.episode_id [
  | none ↦ s
  | some e ↦ if e == episode then record s { alert_delivery_state = d } else s
]

-- One call: the evaluation of a condition in a run.
pub record Seen (V : Type 0) : Type 0 where
  pub evaluation : ConditionEvaluation V
  pub observed_at : String
  pub run_id : String
  pub suppress : Bool

-- What happens to a latch: a run evaluates its condition, or a message of an episode ends.
pub data Event (V : Type 0) : Type 0 where
  observed : Seen V → Event V
  settled : String → AlertDeliveryState → Event V

module _ {V : Type 0} where
  unfoldable pub state_after : ConditionState → Seen V → ConditionState
  unfolding advance_condition
  state_after s o = (advance_condition s o.evaluation o.observed_at o.run_id o.suppress).0

  unfoldable pub transition_after : ConditionState → Seen V → Option ConditionTransition
  unfolding advance_condition
  transition_after s o = (advance_condition s o.evaluation o.observed_at o.run_id o.suppress).2

  unfoldable pub state_of : ConditionState → Event V → ConditionState
  unfolding settle
  state_of s (observed o) = state_after s o
  state_of s (settled episode d) = settle s episode d

  unfoldable pub transition_of : ConditionState → Event V → Option ConditionTransition
  transition_of s (observed o) = transition_after s o
  transition_of s (settled episode d) = none

  -- The latch through successive events, with the transitions that it announced, oldest first.
  unfoldable pub play : ConditionState → List (Event V) → ConditionState × List ConditionTransition
  play s [] = (s, [])
  play s (e ∷ es) =
      let (s', ts) = play (state_of s e) es in (s', cons_option (transition_of s e) ts)
