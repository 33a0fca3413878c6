-- ===== src/Latch/Invariant.antt =====
-- What holds of a latch between two runs.
use adguard_sentinel.Base.{
  ◌≤◌, ◌≡◌, String, none, true, ◌⊎◌, ◌≢◌, arith, List, [], ◌∷◌, u32_max, is_some,
}
use adguard_sentinel.Model.Condition.{
  ConditionEvaluation, ConditionState, ConditionLifecycle, AlertDeliveryState, from_evaluation,
}
use adguard_sentinel.Latch.Advance.{
  Seen, Event, observed, settled, state_after, state_of, settle, play,
}

pub record IsLatch (s : ConditionState) : Type 0 where
  -- One of the two counters is at rest.
  pub one_counts : (s.consecutive_active ≡ 0) ⊎ (s.consecutive_clear ≡ 0)
  pub active_fits : s.consecutive_active ≤ u32_max
  pub clear_fits : s.consecutive_clear ≤ u32_max
  -- A clear latch has nothing pending; any other knows when its episode began.
  pub clear_rests :
      s.lifecycle ≡ ConditionLifecycle.clear
      → (s.consecutive_active ≡ 0) × (s.first_observed_at ≡ none)
  pub open_dated :
      s.lifecycle ≢ ConditionLifecycle.clear
      → (is_some s.first_observed_at ≡ true) × (is_some s.episode_id ≡ true)
  -- Before it fires nothing was sent for the episode; when it fires, the alert has a fate.
  pub pending_unsent :
      s.lifecycle ≡ ConditionLifecycle.pending → s.alert_delivery_state ≡ AlertDeliveryState.never
  pub firing_sent :
      s.lifecycle ≡ ConditionLifecycle.firing
      → (s.alert_delivery_state ≢ AlertDeliveryState.never) × (is_some s.last_transition_run ≡ true)

-- A latch made from an evaluation satisfies the invariant.
pub from_evaluation-IsLatch : {V : Type 0} (e : ConditionEvaluation V) → IsLatch (from_evaluation e)
unfolding from_evaluation
from_evaluation-IsLatch e = ground arith

pub state_after-IsLatch :
    {V : Type 0} (s : ConditionState) (o : Seen V) → IsLatch s → IsLatch (state_after s o)
unfolding state_after
state_after-IsLatch s o h = ground arith

settle-IsLatch :
    (s : ConditionState) (episode : String) (d : AlertDeliveryState)
    → d ≢ AlertDeliveryState.never
    → (s.alert_delivery_state ≢ AlertDeliveryState.never)
    → IsLatch s
    → IsLatch (settle s episode d)
unfolding settle
settle-IsLatch s episode d fate sent h = ground arith

-- A message is sent once its latch has been announced: it ends in some other state than `never`,
-- and not before the alert state left `never`.
abbrev pub IsFair : {V : Type 0} → ConditionState → Event V → Type 0
IsFair s (observed o) = Unit
IsFair s (settled episode d) =
    (d ≢ AlertDeliveryState.never) × (s.alert_delivery_state ≢ AlertDeliveryState.never)

abbrev pub AllFair : {V : Type 0} → ConditionState → List (Event V) → Type 0
AllFair s [] = Unit
AllFair s (e ∷ es) = IsFair s e × AllFair (state_of s e) es

-- Whatever the runs see, and however messages that were sent end, the latch keeps its invariant.
pub play-IsLatch :
    {V : Type 0} (s : ConditionState) (es : List (Event V))
    → IsLatch s
    → AllFair s es
    → IsLatch (play s es).0
unfolding play state_of
play-IsLatch s [] h f = h
play-IsLatch s (observed o ∷ es) h f =
    play-IsLatch (state_after s o) es (state_after-IsLatch s o h) f.1
play-IsLatch s (settled episode d ∷ es) h f =
    play-IsLatch (settle s episode d) es (settle-IsLatch s episode d f.0.0 f.0.1 h) f.1
