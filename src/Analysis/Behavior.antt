-- ===== src/Analysis/Behavior.antt =====
-- `behavioral_evaluations`: the query rate, the blocked ratio and the blocking collapse of one
-- subject.
use adguard_sentinel.Base.{
  ℕ, String, ◌<>◌, Option, none, some, Bool, true, false, ◌&&◌, List, [], ◌∷◌, map, leb,
  if◌then◌else◌, length, filter_map, is_some,
}
use adguard_sentinel.Base.Float.{Float}
use adguard_sentinel.Config.Types.{ConditionProfile}
use adguard_sentinel.Model.Condition.{ConditionEvaluation, Severity}
use adguard_sentinel.Analysis.Evaluation.{
  Json, Fields, unsigned, Verdict, verdict_not_evaluated, from_flag, evaluation,
}
use adguard_sentinel.Analysis.Window.{
  RateWindow, comparable_blocked_ratio, rate_window_minimum_queries,
}
use adguard_sentinel.Analysis.Baseline.{robust_bounds}

pub record BehavioralSubject : Type 0 where
  pub query_rate_id : String
  pub blocked_ratio_id : String
  pub collapse_id : String
  pub query_rate_kind : String
  pub blocked_ratio_kind : String
  pub collapse_kind : String
  pub target_id : Option String
  pub evidence_source : String
  pub noun : String

unfoldable pub aggregate_subject : BehavioralSubject
aggregate_subject = record {
  query_rate_id = "aggregate:query-rate";
  blocked_ratio_id = "aggregate:blocked-ratio";
  collapse_id = "aggregate:blocking-collapsed";
  query_rate_kind = "combined_query_rate";
  blocked_ratio_kind = "combined_blocked_ratio";
  collapse_kind = "combined_blocking_collapse";
  target_id = none;
  evidence_source = "combined complete target statistics";
  noun = "Combined AdGuard";
}

unfoldable pub target_subject : String → String → BehavioralSubject
target_subject id name = record {
  query_rate_id = "target:" <> (id <> ":query-rate");
  blocked_ratio_id = "target:" <> (id <> ":blocked-ratio");
  collapse_id = "target:" <> (id <> ":blocking-collapsed");
  query_rate_kind = "query_rate";
  blocked_ratio_kind = "blocked_ratio";
  collapse_kind = "blocking_collapse";
  target_id = some id;
  evidence_source = "target statistics";
  noun = name;
}

-- What the conditions of one subject share: the subject, the profile, whether its history is old
-- enough, the windows that a comparison needs, and the current window.
pub record Comparison (F : Type 0) : Type 0 where
  pub subject : BehavioralSubject
  pub profile : ConditionProfile
  pub baseline_ready : Bool
  pub minimum_windows : ℕ
  pub current : Option (RateWindow F)

module _ (fl : Float) where
  open fl use {F, literal, mul, sub, add, abs, max, lt}

  -- The bounds of a population, if it is trained.
  unfoldable pub trained_bounds : Bool → ℕ → List F → Option (F × F)
  trained_bounds baseline_ready minimum_windows values =
      if baseline_ready && leb minimum_windows (length values)
      then robust_bounds fl values
      else none

  -- The closure `unevaluated`.
  unfoldable pub unevaluated :
      Comparison F → String → String → Severity → String → String → ℕ → ConditionEvaluation (Json F)
  unfolding evaluation verdict_not_evaluated
  unevaluated c id kind severity reason summary windows =
      evaluation id c.subject.target_id kind severity (verdict_not_evaluated reason summary)
        (Json.object
          (Fields.field "minimum_same_hour_windows" (unsigned c.minimum_windows) Fields.end))
        (Json.object (
          Fields.field "same_hour_windows" (unsigned windows) (
            Fields.field "baseline_ready" (Json.boolean c.baseline_ready)
              (Fields.field "window_available" (Json.boolean (is_some c.current)) Fields.end))))
        c.subject.evidence_source false c.profile.behavioral_anomaly_sustain_runs
        c.profile.recovery_runs

  abbrev pub rate_limit : F → F → F
  rate_limit median deviation =
      max (mul median (literal 3 0)) (add median (mul (literal 4 0) deviation))

  unfoldable pub rate_evaluation :
      Comparison F → List F → Option (F × F) → Option (RateWindow F) → ConditionEvaluation (Json F)
  unfolding unevaluated evaluation from_flag
  rate_evaluation c values none current =
      unevaluated c c.subject.query_rate_id c.subject.query_rate_kind Severity.warning
        "baseline_learning" (c.subject.noun <> " query-rate baseline is still learning")
        (length values)
  rate_evaluation c values (some bounds) none =
      unevaluated c c.subject.query_rate_id c.subject.query_rate_kind Severity.warning
        "rate_window_unavailable" (c.subject.noun <> " query rate has no comparable window")
        (length values)
  rate_evaluation c values (some (median, deviation)) (some window) =
      let limit = rate_limit median deviation in
      evaluation c.subject.query_rate_id c.subject.target_id c.subject.query_rate_kind
        Severity.warning
        (from_flag (lt limit (RateWindow.query_rate window))
          ("above_baseline", c.subject.noun <> " query rate is anomalously high")
          ("within_baseline", c.subject.noun <> " query rate is within baseline"))
        (Json.object (
          Fields.field "maximum_queries_per_second" (Json.float limit) (
            Fields.field "same_hour_median_queries_per_second" (Json.float median)
              (Fields.field "same_hour_windows" (unsigned (length values)) Fields.end))))
        (Json.object (
          Fields.field "queries_per_second" (Json.float (RateWindow.query_rate window)) (
            Fields.field "window_queries" (unsigned (RateWindow.queries window)) (
              Fields.field "window_seconds" (Json.float (RateWindow.elapsed_seconds window))
                Fields.end))))
        c.subject.evidence_source true c.profile.behavioral_anomaly_sustain_runs
        c.profile.recovery_runs

  abbrev ratio_limit : F → F
  ratio_limit deviation = max (literal 4 2) (mul (literal 6 0) deviation)

  abbrev collapse_limit : F → F
  collapse_limit median = mul median (literal 25 2)

  abbrev ratio_id : Comparison F → Bool → String
  ratio_id c collapse = if collapse then c.subject.collapse_id else c.subject.blocked_ratio_id

  abbrev ratio_kind : Comparison F → Bool → String
  ratio_kind c collapse = if collapse then c.subject.collapse_kind else c.subject.blocked_ratio_kind

  abbrev ratio_severity : Bool → Severity
  ratio_severity collapse = if collapse then Severity.critical else Severity.warning

  unfoldable pub ratio_verdict : Comparison F → Bool → F → F → F → Verdict
  unfolding from_flag
  ratio_verdict c collapse median deviation ratio =
      if collapse
      then from_flag (lt ratio (collapse_limit median))
          ("blocking_collapsed", c.subject.noun <> " blocking has nearly stopped")
          ("blocking_sustained", c.subject.noun <> " blocking is sustained")
      else from_flag (lt (ratio_limit deviation) (abs (sub ratio median)))
          ("outside_baseline", c.subject.noun <> " blocked-query ratio is anomalous")
          ("within_baseline", c.subject.noun <> " blocked-query ratio is within baseline")

  abbrev ratio_expected : Bool → F → F → ℕ → Json F
  ratio_expected collapse median deviation windows =
      let rest = Fields.field "same_hour_median" (Json.float median) (
        Fields.field "minimum_queries" (unsigned rate_window_minimum_queries)
          (Fields.field "same_hour_windows" (unsigned windows) Fields.end)) in
      Json.object (
        if collapse
        then Fields.field "minimum_blocked_ratio" (Json.float (collapse_limit median)) rest
        else Fields.field "maximum_absolute_deviation" (Json.float (ratio_limit deviation)) rest)

  -- The body of the loop over the two ratio conditions.
  unfoldable pub ratio_evaluation :
      Comparison F
      → List F
      → Option (F × F)
      → Option (RateWindow F)
      → Bool
      → ConditionEvaluation (Json F)
  unfolding unevaluated evaluation ratio_verdict comparable_blocked_ratio
  ratio_evaluation c values none current collapse =
      unevaluated c (ratio_id c collapse) (ratio_kind c collapse) (ratio_severity collapse)
        "baseline_learning"
        (c.subject.noun
          <> (" "
              <> ((if collapse then "blocking-collapse" else "blocked-ratio")
                  <> " baseline is still learning")))
        (length values)
  ratio_evaluation c values (some bounds) none collapse =
      unevaluated c (ratio_id c collapse) (ratio_kind c collapse) (ratio_severity collapse)
        "rate_window_unavailable" (c.subject.noun <> " has no comparable window") (length values)
  ratio_evaluation c values (some (median, deviation)) (some window) collapse =
      elim (comparable_blocked_ratio window) [
        | none ↦
            unevaluated c (ratio_id c collapse) (ratio_kind c collapse) (ratio_severity collapse)
              "window_too_small" (c.subject.noun <> " has too few queries to compare")
              (length values)
        | some ratio ↦
            evaluation (ratio_id c collapse) c.subject.target_id (ratio_kind c collapse)
              (ratio_severity collapse) (ratio_verdict c collapse median deviation ratio)
              (ratio_expected collapse median deviation (length values))
              (Json.object (
                Fields.field "window_blocked_ratio" (Json.float ratio) (
                  Fields.field "window_queries" (unsigned (RateWindow.queries window)) Fields.end)))
              c.subject.evidence_source true c.profile.behavioral_anomaly_sustain_runs
              c.profile.recovery_runs
      ]

  abbrev pub rates_of : List (RateWindow F) → List F
  rates_of = map (λ w. RateWindow.query_rate w)

  abbrev pub ratios_of : List (RateWindow F) → List F
  ratios_of = filter_map comparable_blocked_ratio

  unfoldable pub behavioral_evaluations :
      BehavioralSubject
      → ConditionProfile
      → Bool
      → List (RateWindow F)
      → Option (RateWindow F)
      → ℕ
      → List (ConditionEvaluation (Json F))
  unfolding rate_evaluation ratio_evaluation trained_bounds
  behavioral_evaluations subject profile baseline_ready history current minimum_windows =
      let c : Comparison F = record {
        subject = subject;
        profile = profile;
        baseline_ready = baseline_ready;
        minimum_windows = minimum_windows;
        current = current;
      } in
      let rates = rates_of history in
      let ratios = ratios_of history in
      let ratio_bounds = trained_bounds baseline_ready minimum_windows ratios in
      rate_evaluation c rates (trained_bounds baseline_ready minimum_windows rates) current
      ∷ ratio_evaluation c ratios ratio_bounds current false
      ∷ ratio_evaluation c ratios ratio_bounds current true
      ∷ []
