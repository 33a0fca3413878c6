-- ===== src/Store/Commit.antt =====
-- The loop of `commit_run` over the evaluations: latches advance, and messages that nobody sent yet
-- are cancelled.
use adguard_sentinel.Base.{
  ℕ, String, Option, none, some, Bool, not, ◌&&◌, ◌||◌, List, [], ◌∷◌, ltb, leb, eqb, if◌then◌else◌,
  ◌==◌, str_leb, find_by, u32_max,
}
use adguard_sentinel.Base.Result.{Result, ok, err, ◌>>=◌}
use adguard_sentinel.Model.Condition.{
  ConditionEvaluation, ConditionState, ConditionTransition, Finding, TransitionKind,
  AlertDeliveryState, is_active, is_clear_outcome, is_clear, is_pending, from_evaluation,
}
use adguard_sentinel.Latch.Advance.{advance_condition, cons_option}
use adguard_sentinel.Outbox.Batch.{transition_order}
use adguard_sentinel.Store.Tables.{Database, StoreError, invalid_data}
use adguard_sentinel.Store.Cancel.{cancel_unsent_condition}

-- `STATE_VERSION`.
abbrev pub state_version : ℕ
state_version = 3

-- The order of the transitions: alerts first, then by condition.
abbrev pub by_transition : ConditionTransition → ConditionTransition → Bool
by_transition a b =
    let x = transition_order a.kind in
    let y = transition_order b.kind in ltb x y || (eqb x y && str_leb a.condition_id b.condition_id)

abbrev pub by_finding : {V : Type 0} → Finding V → Finding V → Bool
by_finding a b = str_leb a.id b.id

abbrev pub u32_fits : ℕ → Bool
u32_fits n = leb n u32_max

-- `load_condition_state`; the counts are `i64` columns.
unfoldable pub load_condition_state :
    List ConditionState → String → Result StoreError (Option ConditionState)
load_condition_state states id = elim (find_by (λ s. s.id == id) states) [
  | none ↦ ok none
  | some s ↦
      if not (u32_fits (ConditionState.consecutive_active s))
      then err (invalid_data "active count is out of range")
      else if not (u32_fits (ConditionState.consecutive_clear s))
      then err (invalid_data "clear count is out of range")
      else ok (some s)
]

-- `upsert_condition_state`.
unfoldable pub upsert_condition_state : ConditionState → List ConditionState → List ConditionState
upsert_condition_state state [] = state ∷ []
upsert_condition_state state (s ∷ ss) =
    let behind = s ∷ upsert_condition_state state ss in
    if s.id == state.id then state ∷ ss else behind

unfoldable pub upsert_states : List ConditionState → List ConditionState → List ConditionState
unfolding upsert_condition_state
upsert_states [] table = table
upsert_states (s ∷ ss) table = upsert_states ss (upsert_condition_state s table)

-- What the loop over the evaluations has in hand at its end.
pub record Advanced (F V : Type 0) : Type 0 where
  pub db : Database F V
  pub evaluations : List (ConditionEvaluation V)
  pub states : List ConditionState
  pub transitions : List ConditionTransition

-- `state.alert_delivery_state = Never; evaluation.notification_state = Never`.
abbrev pub forget_state : ConditionState → ConditionState
forget_state s = record s { alert_delivery_state = AlertDeliveryState.never }

abbrev pub forget_evaluation : {V : Type 0} → ConditionEvaluation V → ConditionEvaluation V
forget_evaluation e = record e { notification_state = AlertDeliveryState.never }

-- A firing or pending episode ends before its alert was sent.
abbrev pub ends_unsent :
    {V : Type 0} → ConditionEvaluation V → ConditionState → ConditionState → Bool
ends_unsent evaluation previous state =
    is_clear_outcome evaluation.outcome
    && is_clear state.lifecycle
    && not (is_clear previous.lifecycle)
    && is_pending previous.alert_delivery_state

-- `unwrap_or_else(|| ConditionState::from_evaluation(evaluation))`.
abbrev pub loaded_or_new :
    {V : Type 0} → ConditionEvaluation V → Option ConditionState → ConditionState
loaded_or_new evaluation none = from_evaluation evaluation
loaded_or_new evaluation (some state) = state

-- `Uuid::new_v4` is `fresh` for the replacement of a message.
module _ (fresh : String → String) (observed_at run_id : String) (suppress : Bool)
    {F V : Type 0} where
  -- The body of the loop: what is cancelled before and after the latch advances.
  unfoldable pub advance_one :
      Database F V
      → ConditionEvaluation V
      → ConditionState
      → Database F V × ConditionEvaluation V × ConditionState × Option ConditionTransition
  advance_one db evaluation previous =
      let db1 =
        if is_active evaluation.outcome && is_clear previous.lifecycle
        then cancel_unsent_condition fresh db evaluation.id none
        else db in
      let (state, evaluation', transition) =
        advance_condition previous evaluation observed_at run_id suppress in
      if ends_unsent evaluation previous state
      then (
        cancel_unsent_condition fresh db1 evaluation.id (some TransitionKind.alert),
        forget_evaluation evaluation',
        forget_state state,
        transition,
      )
      else (db1, evaluation', state, transition)

  unfoldable pub advance_all :
      Database F V → List (ConditionEvaluation V) → Result StoreError (Advanced F V)
  unfolding advance_one load_condition_state from_evaluation
  advance_all db [] = ok (record { db = db; evaluations = []; states = []; transitions = [] })
  advance_all db (evaluation ∷ evaluations) = do
    loaded ← load_condition_state db.states (ConditionEvaluation.id evaluation)
    let step = advance_one db evaluation (loaded_or_new evaluation loaded)
    rest ← advance_all step.0 evaluations
    ok (record {
      db = Advanced.db rest;
      evaluations = step.1 ∷ Advanced.evaluations rest;
      states = step.2 ∷ Advanced.states rest;
      transitions = cons_option step.3 (Advanced.transitions rest);
    })
