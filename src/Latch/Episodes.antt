-- ===== src/Latch/Episodes.antt =====
-- The transitions of a latch over its whole life, whatever the runs see and however its messages
-- end.
use adguard_sentinel.Base.{
  ◌≡◌, String, some, Bool, true, false, ◌⊎◌, arith, List, [], ◌∷◌, inl, inr, eq_iff, sym,
}
use mathlib.Core.List.{Memᴰ}
use adguard_sentinel.Model.Condition.{
  ConditionEvaluation, ConditionState, ConditionTransition, AlertDeliveryState, TransitionKind,
  from_evaluation, is_firing,
}
use adguard_sentinel.Latch.Advance.{
  Seen, Event, observed, settled, state_after, transition_after, state_of, transition_of, play,
  cons_option,
}
use adguard_sentinel.Latch.Spec.{kind_of, resolution_iff}

-- A resolution answers an alert: `armed` says whether one stands unanswered.
abbrev pub Answered : Bool → List ConditionTransition → Type 0
Answered armed [] = Unit
Answered armed (t ∷ ts) = elim t.kind [
  | TransitionKind.alert ↦ Answered true ts
  | TransitionKind.resolution ↦ (armed ≡ true) × Answered false ts
]

Answered-armed : (b : Bool) (ts : List ConditionTransition) → Answered b ts → Answered true ts
Answered-armed b [] h = tt
Answered-armed b (t ∷ ts) h = ground arith

module _ {V : Type 0} where
  Answered-step :
      (s : ConditionState) (e : Event V) (ts : List ConditionTransition)
      → Answered (is_firing (state_of s e).lifecycle) ts
      → Answered (is_firing s.lifecycle) (cons_option (transition_of s e) ts)
  unfolding state_of transition_of state_after transition_after
  Answered-step s (observed o) ts h = ground (
    arith,
    Answered-armed (is_firing (state_of s (observed o)).lifecycle) ts h,
    Answered-armed false ts,
  )
  Answered-step s (settled episode d) ts h = ground arith

  -- In the announcements of a latch, whatever it sees, every resolution is preceded by an alert
  -- with no other resolution between them; the first one by the alert of a latch that fires at the
  -- start, if not by an announced one.
  pub play-Answered :
      (s : ConditionState) (es : List (Event V)) → Answered (is_firing s.lifecycle) (play s es).1
  unfolding play
  play-Answered s [] = tt
  play-Answered s (e ∷ es) = Answered-step s e _ (play-Answered (state_of s e) es)

  delivered-step :
      (s : ConditionState) (e : Event V) (ep : String)
      → (state_of s e).alert_delivery_state ≡ AlertDeliveryState.delivered
      → (state_of s e).episode_id ≡ some ep
      → (e ≡ settled ep AlertDeliveryState.delivered)
        ⊎ ((s.alert_delivery_state ≡ AlertDeliveryState.delivered) × (s.episode_id ≡ some ep))
  unfolding state_of state_after
  delivered-step s (observed o) ep d i = ground arith
  delivered-step s (settled episode x) ep d i = ground (arith, eq_iff ep episode)

  -- Where a latch counts its alert as delivered, some message of the episode that it is in was
  -- delivered, or it started so.
  delivered-settled :
      (s : ConditionState) (es : List (Event V)) (ep : String)
      → (play s es).0.alert_delivery_state ≡ AlertDeliveryState.delivered
      → (play s es).0.episode_id ≡ some ep
      → Memᴰ (settled ep AlertDeliveryState.delivered) es
        ⊎ ((s.alert_delivery_state ≡ AlertDeliveryState.delivered) × (s.episode_id ≡ some ep))
  unfolding play
  delivered-settled s [] ep d i = inr (d, i)
  delivered-settled s (e ∷ es) ep d i = elim (delivered-settled (state_of s e) es ep d i) [
    | inl m ↦ inl (Memᴰ.tail m)
    | inr h ↦ elim (delivered-step s e ep h.0 h.1) [
      | inl eq ↦ inl (Memᴰ.head (sym eq))
      | inr k ↦ inr k
    ]
  ]

  -- A run that does not suppress notifications announces a resolution of a condition, whose latch
  -- began as a fresh one, only if a message of the very episode that it resolves was confirmed as
  -- delivered before.
  pub resolution_needs_delivery :
      (first : ConditionEvaluation V) (es : List (Event V)) (o : Seen V) (ep : String)
      → o.suppress ≡ false
      → kind_of (transition_after (play (from_evaluation first) es).0 o)
        ≡ some TransitionKind.resolution
      → (play (from_evaluation first) es).0.episode_id ≡ some ep
      → Memᴰ (settled ep AlertDeliveryState.delivered) es
  unfolding from_evaluation
  resolution_needs_delivery first es o ep live r i =
      elim (delivered-settled (from_evaluation first) es ep
        (ground (arith, resolution_iff (play (from_evaluation first) es).0 o)) i) [
          | inl m ↦ m
          | inr h ↦ cc h.0
        ]
