-- ===== src/Analysis/Latency.antt =====
-- `evaluate_upstream_latency`: the verdict on the pooled windows.
use adguard_sentinel.Base.{
  ℕ, String, ◌<>◌, Option, none, some, true, not, ◌&&◌, ◌||◌, List, [], ◌∷◌, ◌++◌, leb,
  if◌then◌else◌, ◌==◌, filter_by, pairs, is_some, is_none, Ordering,
}
use Prim.Native.String.{compare as compare_text}
use adguard_sentinel.Base.Int.{ℤ, pos, sub_i64, ltb_ℤ, eqb_ℤ}
use adguard_sentinel.Base.Float.{Float}
use adguard_sentinel.Base.Chars.{decimal}
use adguard_sentinel.Config.Types.{TargetConfig, ConditionProfile}
use adguard_sentinel.Model.Condition.{ConditionEvaluation, Severity}
use adguard_sentinel.Model.Observation.{UpstreamSample, TargetReport}
use adguard_sentinel.Analysis.Evaluation.{
  Json, Items, Fields, unsigned, optional, Verdict, verdict_not_evaluated, from_flag, evaluation,
}
use adguard_sentinel.Analysis.Upstream.{
  UpstreamTotals, upstream_lookback_seconds, upstream_minimum_responses, average_seconds,
  current_upstream_sample, pool_pairs,
}

abbrev list_of {ℓ} : {A : Type ℓ} → Option A → List A
list_of none = []
list_of (some a) = a ∷ []

module _ (fl : Float) where
  open fl use {F, of_u64, lt, div, mul, literal, total_cmp, show_rounded}

  -- An upstream that may be the slowest: its identity, its responses, its average.
  abbrev pub Candidate : Type 0
  Candidate = String × ℕ × F

  -- The readings that are pooled: the target's earlier ones and then the current one.
  unfoldable pub readings_of :
      TargetReport F → List UpstreamSample → Option UpstreamSample → ℤ → List UpstreamSample
  readings_of report history current now =
      filter_by
        (λ s. (UpstreamSample.target_id s == report.id) && ltb_ℤ (UpstreamSample.timestamp s) now)
        history
      ++ list_of current

  unfoldable pub pool :
      TargetReport F
      → List UpstreamSample
      → Option UpstreamSample
      → ℤ
      → ℤ × List (String × UpstreamTotals)
  unfolding pool_pairs readings_of
  pool report history current now =
      if is_some current
      then pool_pairs fl (pos 0) [] (
          filter_by
            (λ p. ltb_ℤ (sub_i64 now upstream_lookback_seconds) (UpstreamSample.timestamp (p.1)))
            (pairs (readings_of report history current now)))
      else (pos 0, [])

  unfoldable pub candidates : List (String × UpstreamTotals) → List Candidate
  unfolding average_seconds
  candidates [] = []
  candidates ((identity, totals) ∷ rest) =
      let others = candidates rest in
      if leb upstream_minimum_responses totals.responses
      then elim (average_seconds fl totals) [
        | none ↦ others
        | some seconds ↦ (identity, totals.responses, seconds) ∷ others
      ]
      else others

  -- The comparison of `max_by`: the greater average, and at equal averages the lesser identity.
  abbrev candidate_cmp : Candidate → Candidate → Ordering
  candidate_cmp left right = elim (total_cmp left.2 right.2) [
    | Ordering.eq ↦ compare_text right.0 left.0
    | Ordering.lt ↦ Ordering.lt
    | Ordering.gt ↦ Ordering.gt
  ]

  -- `max_by` keeps the last of equal maxima.
  unfoldable pub greatest : Option Candidate → List Candidate → Option Candidate
  greatest best [] = best
  greatest none (c ∷ cs) = greatest (some c) cs
  greatest (some b) (c ∷ cs) =
      greatest (some (elim (candidate_cmp b c) [ Ordering.gt ↦ b | _ ↦ c ])) cs

  unfoldable pub slowest : List (String × UpstreamTotals) → Option Candidate
  unfolding greatest candidates
  slowest pooled = greatest none (candidates pooled)

  abbrev upstream_values : List (String × UpstreamTotals) → Items F
  upstream_values [] = Items.nil
  upstream_values ((identity, totals) ∷ rest) =
      Items.item
        (Json.object (
          Fields.field "identity" (Json.text identity) (
            Fields.field "responses" (unsigned totals.responses) (
              Fields.field "average_seconds" (optional Json.float (average_seconds fl totals))
                Fields.end))))
        (upstream_values rest)

  unfoldable pub latency_verdict : TargetConfig → F → ℤ → Option Candidate → Verdict
  unfolding verdict_not_evaluated from_flag
  latency_verdict target maximum window_seconds slowest' =
      if eqb_ℤ window_seconds (pos 0)
      then verdict_not_evaluated "window_unavailable"
          (target.name <> " upstream latency has no measurement window yet")
      else elim slowest' [
        | none ↦
            verdict_not_evaluated "insufficient_responses"
              (target.name <> " upstreams gave too few responses to judge latency")
        | some (identity, responses, seconds) ↦
            from_flag (lt maximum seconds)
              (
                "above_threshold",
                target.name
                    <> (" upstream "
                        <> (identity
                            <> (" is persistently slow: "
                                <> (show_rounded (mul seconds (literal 1000 0))
                                    <> (" ms average over "
                                        <> (decimal responses <> " responses")))))),
              )
              ("within_threshold", target.name <> " upstream latency is within threshold")
      ]

  unfoldable pub evaluate_upstream_latency :
      TargetConfig
      → ConditionProfile
      → TargetReport F
      → List UpstreamSample
      → ℤ
      → ℤ
      → List (ConditionEvaluation (Json F))
  unfolding current_upstream_sample pool slowest latency_verdict evaluation
  evaluate_upstream_latency target profile report history started now =
      if not report.complete || is_none report.operational
      then []
      else (let maximum = div (of_u64 profile.upstream_latency_ms) (literal 1000 0) in
          let current = current_upstream_sample fl report started now in
          let (window_seconds, pooled) = pool report history current now in
          let worst = slowest pooled in
          evaluation ("target:" <> (target.id <> ":upstream-latency"))
            (some (TargetConfig.id target)) "upstream_latency" Severity.warning
            (latency_verdict target maximum window_seconds worst)
            (Json.object (
              Fields.field "maximum_seconds" (Json.float maximum) (
                Fields.field "comparison" (Json.text "strictly_greater") (
                  Fields.field "minimum_responses" (unsigned upstream_minimum_responses) (
                    Fields.field "lookback_seconds" (Json.integer upstream_lookback_seconds)
                      Fields.end)))))
            (Json.object (
              Fields.field "seconds" (optional (λ c. Json.float (c.2)) worst) (
                Fields.field "upstream" (optional (λ c. Json.text (c.0)) worst) (
                  Fields.field "responses" (optional (λ c. unsigned (c.1)) worst) (
                    Fields.field "window_seconds" (Json.integer window_seconds) (
                      Fields.field "upstreams" (Json.array (upstream_values pooled))
                        Fields.end))))))
            "GET /control/stats top_upstreams_responses and top_upstreams_avg_time, differenced between runs"
            true profile.upstream_latency_sustain_runs profile.recovery_runs
          ∷ [])
