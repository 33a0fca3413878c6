-- ===== src/Analysis/Upstream.antt =====
-- Upstream latency, pooled over recent windows: `evaluate_upstream_latency` and what it calls.
use adguard_sentinel.Base.{
  ℕ, String, Option, none, some, Bool, ◌||◌, List, [], ◌∷◌, ◌++◌, map, ltb, if◌then◌else◌, ◌==◌,
  find_by, lookup, insert, saturating_add, checked_sub, u64_max, set_of,
}
use adguard_sentinel.Base.Int.{ℤ, pos, sub_i64, add_i64, div_euclid, leb_ℤ, eqb_ℤ}
use adguard_sentinel.Base.Float.{Float}
use adguard_sentinel.Base.Opt.{◌>>=◌}
use adguard_sentinel.Model.Observation.{
  UpstreamSample, UpstreamCounter, UpstreamObservation, TargetReport, from_average,
}
use adguard_sentinel.Analysis.Window.{rate_window_maximum_seconds}

abbrev pub upstream_lookback_seconds : ℤ
upstream_lookback_seconds = pos 1800

abbrev pub upstream_minimum_responses : ℕ
upstream_minimum_responses = 20

abbrev statistics_unit_seconds : ℕ
statistics_unit_seconds = 3600

pub record UpstreamTotals : Type 0 where
  pub responses : ℕ
  pub total_microseconds : ℕ

unfoldable pub statistics_unit : UpstreamSample → Option ℤ
statistics_unit sample =
    let unit = div_euclid sample.timestamp statistics_unit_seconds in
    if eqb_ℤ (div_euclid sample.observation_started statistics_unit_seconds) unit
    then some unit
    else none

-- The closure `find`.
unfoldable pub find_counter : UpstreamSample → String → UpstreamTotals
find_counter sample identity =
    elim (find_by (λ c. UpstreamCounter.identity c == identity) sample.upstreams) [
      | none ↦ record { responses = 0; total_microseconds = 0 }
      | some c ↦ record {
        responses = UpstreamCounter.responses c;
        total_microseconds = UpstreamCounter.total_microseconds c;
      }
    ]

abbrev pub identities : UpstreamSample → UpstreamSample → List String
identities previous current =
    set_of (map (λ c. UpstreamCounter.identity c) (previous.upstreams ++ current.upstreams))

unfoldable pub counter_difference : UpstreamSample → UpstreamSample → String → Option UpstreamTotals
unfolding find_counter
counter_difference previous current identity = do
  responses ←
      checked_sub (UpstreamTotals.responses (find_counter current identity))
        (UpstreamTotals.responses (find_counter previous identity))
  total ←
      checked_sub (UpstreamTotals.total_microseconds (find_counter current identity))
        (UpstreamTotals.total_microseconds (find_counter previous identity))
  some (record { responses = responses; total_microseconds = total })

-- The loop over the identities; they are distinct and sorted, as the map's keys are.
unfoldable pub counter_differences :
    UpstreamSample → UpstreamSample → List String → Option (List (String × UpstreamTotals))
unfolding counter_difference
counter_differences previous current [] = some []
counter_differences previous current (i ∷ is) = do
  d ← counter_difference previous current i
  rest ← counter_differences previous current is
  some ((i, d) ∷ rest)

-- Both readings were surely taken in one statistics unit.
abbrev pub same_unit : UpstreamSample → UpstreamSample → Option Bool
same_unit previous current = do
  a ← statistics_unit previous
  b ← statistics_unit current
  some (eqb_ℤ a b)

module _ (fl : Float) where
  open fl use {F, of_i64, of_u64, lt, div, mul, literal, total_cmp, show_rounded}

  unfoldable pub average_seconds : UpstreamTotals → Option F
  average_seconds t =
      if ltb 0 t.responses
      then some (div (div (of_u64 t.total_microseconds) (of_u64 t.responses)) (literal 1000000 0))
      else none

  unfoldable pub upstream_window :
      UpstreamSample → UpstreamSample → Option (ℤ × List (String × UpstreamTotals))
  unfolding counter_differences statistics_unit
  upstream_window previous current =
      let elapsed = sub_i64 current.timestamp previous.timestamp in
      if leb_ℤ elapsed (pos 0) || lt (rate_window_maximum_seconds fl) (of_i64 elapsed)
      then none
      else (do
        same ← same_unit previous current
        totals ←
            if same
            then counter_differences previous current (identities previous current)
            else none
        some (elapsed, totals))

  unfoldable pub current_counters : List (UpstreamObservation F) → Option (List UpstreamCounter)
  unfolding from_average
  current_counters [] = some []
  current_counters (u ∷ us) = do
    responses ← UpstreamObservation.responses u
    counter ←
        from_average fl (UpstreamObservation.identity u) (UpstreamObservation.average_seconds u)
          responses
    rest ← current_counters us
    some (counter ∷ rest)

  unfoldable pub current_upstream_sample : TargetReport F → ℤ → ℤ → Option UpstreamSample
  unfolding current_counters
  current_upstream_sample report observation_started timestamp = do
    upstreams ← current_counters report.upstreams
    some (record {
      target_id = report.id;
      observation_started = observation_started;
      timestamp = timestamp;
      upstreams = upstreams;
    })

  -- `pooled.entry(identity).or_default()`, and the two saturating sums.
  unfoldable pub pool_one :
      List (String × UpstreamTotals) → String × UpstreamTotals → List (String × UpstreamTotals)
  unfolding lookup insert
  pool_one pooled (identity, w) =
      let entry : UpstreamTotals = elim (lookup identity pooled) [
        | none ↦ record { responses = 0; total_microseconds = 0 }
        | some e ↦ e
      ] in
      insert identity
        (record {
          responses = saturating_add u64_max entry.responses w.responses;
          total_microseconds = saturating_add u64_max entry.total_microseconds w.total_microseconds;
        })
        pooled

  unfoldable pub pool_all :
      List (String × UpstreamTotals)
      → List (String × UpstreamTotals)
      → List (String × UpstreamTotals)
  unfolding pool_one
  pool_all pooled [] = pooled
  pool_all pooled (w ∷ ws) = pool_all (pool_one pooled w) ws

  -- The loop over the pairs: the seconds of the windows and the pooled totals.
  unfoldable pub pool_pairs :
      ℤ
      → List (String × UpstreamTotals)
      → List (UpstreamSample × UpstreamSample)
      → ℤ × List (String × UpstreamTotals)
  unfolding pool_all upstream_window
  pool_pairs seconds pooled [] = (seconds, pooled)
  pool_pairs seconds pooled ((a, b) ∷ rest) =
      let (seconds', pooled') =
        let r : ℤ × List (String × UpstreamTotals) = elim (upstream_window a b) [
          | none ↦ (seconds, pooled)
          | some (elapsed, totals) ↦ (add_i64 seconds elapsed, pool_all pooled totals)
        ] in
        r in
      pool_pairs seconds' pooled' rest
