-- ===== src/Latch/History.antt =====
-- The counters of a latch against the history that it has seen, newest first.
use mathlib.Core.List.{reverse, reverse-cons}
use adguard_sentinel.Base.{
  ℕ, suc, ◌+◌, ◌≤◌, ◌<◌, ◌≡◌, refl, ◌∙◌, String, none, some, Bool, true, false, ◌≢◌, arith, List,
  [], ◌∷◌, ◌++◌, u32_max, length, filter_by, leb, All, not, if◌then◌else◌, Bool-cases, inl, inr,
  ◌↔◌,
}
use adguard_sentinel.Model.Condition.{
  ConditionEvaluation, ConditionState, EvaluationOutcome, ConditionLifecycle, Severity,
  TransitionKind, from_evaluation, is_not_evaluated,
}
use adguard_sentinel.Latch.Advance.{
  Seen, Event, observed, settled, state_after, transition_after, state_of, transition_of, play,
  settle,
}
use adguard_sentinel.Latch.Spec.{kind_of}

abbrev min_u32 : ℕ → ℕ
min_u32 n = if leb n u32_max then n else u32_max

module _ {V : Type 0} where
  abbrev outcome_of : Event V → EvaluationOutcome
  outcome_of (observed o) = o.evaluation.outcome
  outcome_of (settled _ _) = EvaluationOutcome.not_evaluated

  -- How many of the latest evaluations had the outcome, with those that were not evaluated left
  -- out. The newest event stands first.
  abbrev pub active_streak : List (Event V) → ℕ
  active_streak [] = 0
  active_streak (e ∷ es) =
      let n = active_streak es in
      elim (outcome_of e) [
        | EvaluationOutcome.active ↦ suc n
        | EvaluationOutcome.clear ↦ 0
        | EvaluationOutcome.not_evaluated ↦ n
      ]

  abbrev pub clear_streak : List (Event V) → ℕ
  clear_streak [] = 0
  clear_streak (e ∷ es) =
      let n = clear_streak es in
      elim (outcome_of e) [
        | EvaluationOutcome.active ↦ 0
        | EvaluationOutcome.clear ↦ suc n
        | EvaluationOutcome.not_evaluated ↦ n
      ]

  play-append :
      (s : ConditionState) (es : List (Event V)) (e : Event V)
      → (play s (es ++ e ∷ [])).0 ≡ state_of (play s es).0 e
  unfolding play
  play-append s [] e = refl
  play-append s (x ∷ es) e = play-append (state_of s x) es e

  step-active :
      (s : ConditionState) (e : Event V) (es : List (Event V))
      → s.consecutive_active ≡ min_u32 (active_streak es)
      → (state_of s e).consecutive_active ≡ min_u32 (active_streak (e ∷ es))
  unfolding state_of state_after
  step-active s (observed o) es h = ground arith
  step-active s (settled ep d) es h = ground arith

  step-clear :
      (s : ConditionState) (e : Event V) (es : List (Event V))
      → s.consecutive_clear ≡ min_u32 (clear_streak es)
      → (state_of s e).consecutive_clear ≡ min_u32 (clear_streak (e ∷ es))
  unfolding state_of state_after
  step-clear s (observed o) es h = ground arith
  step-clear s (settled ep d) es h = ground arith

  -- From a fresh latch the two counters are, up to their saturation at `u32::MAX`, the lengths of
  -- the streaks of active and of clear evaluations that the history ends in, not-evaluated ones
  -- left out.
  pub counters_count :
      (first : ConditionEvaluation V) (history : List (Event V))
      → let s = (play (from_evaluation first) (reverse history)).0 in
        (s.consecutive_active ≡ min_u32 (active_streak history))
        × (s.consecutive_clear ≡ min_u32 (clear_streak history))
  unfolding from_evaluation play
  counters_count first [] = (refl, refl)
  counters_count first (e ∷ es) =
      let s = (play (from_evaluation first) (reverse es)).0 in
      let ih = counters_count first es in
      rw (reverse-cons e es) (
        rw (play-append (from_evaluation first) (reverse es) e)
          (step-active s e es ih.0, step-clear s e es ih.1))

  streak_step :
      (s : ConditionState) (o : Seen V) (history : List (Event V))
      → o.evaluation.sustain_runs ≤ u32_max
      → s.consecutive_active ≡ min_u32 (active_streak history)
      → (kind_of (transition_after s o) ≡ some TransitionKind.alert) ↔ (
          (o.evaluation.outcome ≡ EvaluationOutcome.active)
          × (s.lifecycle ≢ ConditionLifecycle.firing)
          × (o.evaluation.sustain_runs ≤ active_streak (observed o ∷ history)))
  unfolding transition_after
  streak_step s o history fits n = ground arith

  -- From a fresh latch, whatever came before, an alert is announced by exactly the call that meets
  -- an active evaluation in a latch that does not fire yet and completes a streak of at least
  -- `sustain_runs` active evaluations, not-evaluated ones left out.
  pub alert-streak_iff :
      (first : ConditionEvaluation V) (history : List (Event V)) (o : Seen V)
      → o.evaluation.sustain_runs ≤ u32_max
      → let s = (play (from_evaluation first) (reverse history)).0 in
        (kind_of (transition_after s o) ≡ some TransitionKind.alert) ↔ (
          (o.evaluation.outcome ≡ EvaluationOutcome.active)
          × (s.lifecycle ≢ ConditionLifecycle.firing)
          × (o.evaluation.sustain_runs ≤ active_streak (observed o ∷ history)))
  alert-streak_iff first history o fits =
      streak_step (play (from_evaluation first) (reverse history)).0 o history fits
        (counters_count first history).0

  -- The event keeps the kind and the severity.
  abbrev IsOf : String → Severity → Event V → Type 0
  IsOf kind severity (observed o) = (o.evaluation.kind ≡ kind) × (o.evaluation.severity ≡ severity)
  IsOf kind severity (settled _ _) = Unit

  abbrev is_evaluated : Event V → Bool
  is_evaluated (observed o) = not (is_not_evaluated o.evaluation.outcome)
  is_evaluated (settled _ _) = true

  state_of-not_evaluated :
      (s : ConditionState) (e : Event V)
      → IsOf s.kind s.severity e
      → is_evaluated e ≡ false
      → (state_of s e ≡ s) × (transition_of s e ≡ none)
  unfolding state_of transition_of state_after transition_after
  state_of-not_evaluated s (observed o) same skip = ground arith
  state_of-not_evaluated s (settled ep d) same skip = cc

  kind-step :
      (s : ConditionState) (e : Event V)
      → IsOf s.kind s.severity e
      → ((state_of s e).kind ≡ s.kind) × ((state_of s e).severity ≡ s.severity)
  unfolding state_of state_after
  kind-step s (observed o) same = ground arith
  kind-step s (settled ep d) same = ground arith

  -- A latch does not see the evaluations that were not evaluated: as long as its condition keeps
  -- one kind and one severity, leaving them out changes neither its state nor its announcements.
  pub not_evaluated_skipped :
      (kind : String) (severity : Severity) (s : ConditionState) (es : List (Event V))
      → s.kind ≡ kind
      → s.severity ≡ severity
      → All (IsOf kind severity) es
      → play s es ≡ play s (filter_by is_evaluated es)
  unfolding play
  not_evaluated_skipped kind severity s [] hk hs same = refl
  not_evaluated_skipped kind severity s (e ∷ es) hk hs (one, rest) =
      let here : IsOf s.kind s.severity e = rw (hk, hs) one in
      let next = kind-step s e here in
      let ih =
        not_evaluated_skipped kind severity (state_of s e) es (next.0 ∙ hk) (next.1 ∙ hs) rest in
      elim (Bool-cases (is_evaluated e)) [
        | inl t ↦ rw (t, ih)
        | inr f ↦ (let still = state_of-not_evaluated s e here f in rw (f, ih, still.0, still.1))
      ]

  -- Nothing but active evaluations with one `sustain_runs`.
  abbrev IsSustained : ℕ → Event V → Type 0
  IsSustained r (observed o) =
      (o.evaluation.outcome ≡ EvaluationOutcome.active) × (o.evaluation.sustain_runs ≡ r)
  IsSustained r (settled _ _) = Unit

  abbrev is_observed : Event V → Bool
  is_observed (observed _) = true
  is_observed (settled _ _) = false

  quiet_while_firing :
      (r : ℕ) (s : ConditionState) (es : List (Event V))
      → s.lifecycle ≡ ConditionLifecycle.firing
      → All (IsSustained r) es
      → (play s es).1 ≡ []
  unfolding play state_of transition_of state_after transition_after settle
  quiet_while_firing r s [] f h = refl
  quiet_while_firing r s (observed o ∷ es) f h =
      ground (arith, quiet_while_firing r (state_after s o) es (ground arith) h.1)
  quiet_while_firing r s (settled ep d ∷ es) f h =
      quiet_while_firing r (settle s ep d) es (ground arith) h.1

  alerts_once_from :
      (r : ℕ) (s : ConditionState) (es : List (Event V))
      → s.lifecycle ≢ ConditionLifecycle.firing
      → s.consecutive_active < r
      → r ≤ u32_max
      → All (IsSustained r) es
      → length (play s es).1
        ≡ (if leb r (s.consecutive_active + length (filter_by is_observed es)) then 1 else 0)
  unfolding play state_of transition_of state_after transition_after settle
  alerts_once_from r s [] q k fits h = ground arith
  alerts_once_from r s (observed o ∷ es) q k fits h =
      elim (Bool-cases (leb r (s.consecutive_active + 1))) [
        | inl now ↦ ground (arith, quiet_while_firing r (state_after s o) es (ground arith) h.1)
        | inr later ↦
            ground (
              arith,
              alerts_once_from r (state_after s o) es (ground arith) (ground arith) fits h.1,
            )
      ]
  alerts_once_from r s (settled ep d ∷ es) q k fits h =
      ground (arith, alerts_once_from r (settle s ep d) es (ground arith) (ground arith) fits h.1)

  -- A fresh latch that sees nothing but active evaluations with one positive `sustain_runs`, and
  -- the fates of messages, announces one thing once it has seen `sustain_runs` of them, and nothing
  -- before.
  pub alerts_once :
      (first : ConditionEvaluation V) (r : ℕ) (es : List (Event V))
      → 0 < r
      → r ≤ u32_max
      → All (IsSustained r) es
      → length (play (from_evaluation first) es).1
        ≡ (if leb r (length (filter_by is_observed es)) then 1 else 0)
  unfolding from_evaluation
  alerts_once first r es positive fits h =
      alerts_once_from r (from_evaluation first) es (ground arith) positive fits h ∙ ground arith
