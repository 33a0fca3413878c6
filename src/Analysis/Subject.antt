-- ===== src/Analysis/Subject.antt =====
-- The three conditions of a behavioural subject: `behavioral_evaluations`
-- (crates/sentinel-core/src/analysis.rs).
use adguard_sentinel.Base.{
  ℕ, ◌≤◌, ◌≡◌, refl, String, Option, none, some, Bool, true, false, ◌&&◌, List, [], ◌∷◌, map, arith,
  is_some, leb, if◌then◌else◌, length,
}
use adguard_sentinel.Base.Float.{Float}
use adguard_sentinel.Config.Types.{ConditionProfile}
use adguard_sentinel.Model.Condition.{ConditionEvaluation, EvaluationOutcome}
use adguard_sentinel.Analysis.Window.{
  RateWindow, comparable_blocked_ratio, rate_window_minimum_queries,
}
use adguard_sentinel.Analysis.Behavior.{
  BehavioralSubject, Comparison, trained_bounds, unevaluated, rate_evaluation, ratio_evaluation,
  ratio_verdict, behavioral_evaluations, rates_of, ratios_of,
}

abbrev pub is_evaluated : EvaluationOutcome → Bool
is_evaluated EvaluationOutcome.not_evaluated = false
is_evaluated _ = true

-- What a behavioural condition says of itself: its identity, its kind, whether its observation was
-- complete, and whether it was evaluated.
abbrev pub Account : Type 0
Account = String × String × Bool × Bool

abbrev pub account : {V : Type 0} → ConditionEvaluation V → Account
account e = (e.id, e.kind, e.observation_complete, is_evaluated e.outcome)

abbrev pub judged : String → String → Bool → Account
judged id kind b = (id, kind, b, b)

module _ (fl : Float) where
  open fl use {F}

  -- The ratio of a window that there is, if it is comparable.
  abbrev pub comparable : Option (RateWindow F) → Bool
  comparable none = false
  comparable (some w) = leb rate_window_minimum_queries (RateWindow.queries w)

  rate-account :
      (c : Comparison F) (values : List F) (bounds : Option (F × F))
      (current : Option (RateWindow F))
      → account (rate_evaluation fl c values bounds current)
        ≡ judged c.subject.query_rate_id c.subject.query_rate_kind
            (is_some bounds && is_some current)
  unfolding rate_evaluation unevaluated
  rate-account c values none current = refl
  rate-account c values (some b) none = refl
  rate-account c values (some (m, d)) (some w) = ground arith

  ratio-account :
      (c : Comparison F) (values : List F) (bounds : Option (F × F))
      (current : Option (RateWindow F)) (collapse : Bool)
      → account (ratio_evaluation fl c values bounds current collapse)
        ≡ judged
            (if collapse then c.subject.collapse_id else c.subject.blocked_ratio_id)
            (if collapse then c.subject.collapse_kind else c.subject.blocked_ratio_kind)
            (is_some bounds && comparable current)
  unfolding ratio_evaluation unevaluated ratio_verdict comparable_blocked_ratio
  ratio-account c values none current collapse = refl
  ratio-account c values (some b) none collapse = refl
  ratio-account c values (some (m, d)) (some w) collapse = ground arith

  -- A subject always has its three conditions, in this order, under its own identities and kinds.
  -- Each is evaluated exactly where its own population is trained and the current window can be
  -- compared (for the two ratios: has enough queries), and its observation counts as complete
  -- exactly then.
  pub behavioral_accounts :
      (subject : BehavioralSubject) (profile : ConditionProfile) (ready : Bool)
      (history : List (RateWindow F)) (current : Option (RateWindow F)) (minimum : ℕ)
      → map account (behavioral_evaluations fl subject profile ready history current minimum) ≡ (
          let rate = is_some (trained_bounds fl ready minimum (rates_of fl history)) in
          let ratio = is_some (trained_bounds fl ready minimum (ratios_of fl history)) in
          judged subject.query_rate_id subject.query_rate_kind (rate && is_some current)
          ∷ judged subject.blocked_ratio_id subject.blocked_ratio_kind (ratio && comparable current)
          ∷ judged subject.collapse_id subject.collapse_kind (ratio && comparable current)
          ∷ [])
  unfolding behavioral_evaluations
  behavioral_accounts subject profile ready history current minimum =
      let c : Comparison F = record {
        subject = subject;
        profile = profile;
        baseline_ready = ready;
        minimum_windows = minimum;
        current = current;
      } in
      let rates = rates_of fl history in
      let ratios = ratios_of fl history in
      let bounds = trained_bounds fl ready minimum ratios in
      rw
        (
          rate-account c rates (trained_bounds fl ready minimum rates) current,
          ratio-account c ratios bounds current false,
          ratio-account c ratios bounds current true,
        )
        refl

  -- No population is trained before the history is old enough, nor on fewer values than the
  -- configuration asks for.
  pub trained_bounds-needs :
      (ready : Bool) (minimum : ℕ) (values : List F)
      → is_some (trained_bounds fl ready minimum values) ≡ true
      → (ready ≡ true) × (minimum ≤ length values)
  unfolding trained_bounds
  trained_bounds-needs ready minimum values h = ground arith
