-- ===== src/Examples/Upstreams.antt =====
-- Two readings of a target's upstream counters in one hour (crates/sentinel-core/src/analysis.rs).
use adguard_sentinel.Base.{ℕ, refl, String, List, [], ◌∷◌}
use adguard_sentinel.Base.Int.{pos, sub_i64, ◌-ℤ◌, div_euclid}
use adguard_sentinel.Model.Observation.{UpstreamSample}
use adguard_sentinel.Analysis.Upstream.{
  UpstreamTotals, upstream_window, statistics_unit, counter_differences,
}
use adguard_sentinel.Analysis.Pooling.{IsOneUnit, upstream_window-exact}
use adguard_sentinel.Examples.Analyses.{whole}

abbrev reading : ℕ → ℕ → ℕ → UpstreamSample
reading time responses micros = record {
  target_id = "one";
  observation_started = pos time;
  timestamp = pos time;
  upstreams = record { identity = "dns"; responses = responses; total_microseconds = micros } ∷ [];
}

abbrev grown : List (String × UpstreamTotals)
grown = ("dns", record { responses = 30; total_microseconds = 900 }) ∷ []

upstream_window-exact_example : IsOneUnit (reading 7300 10 100) (reading 7600 40 1000)
unfolding upstream_window statistics_unit counter_differences sub_i64 ◌-ℤ◌ div_euclid
upstream_window-exact_example =
    (upstream_window-exact whole (reading 7300 10 100) (reading 7600 40 1000) (pos 300) grown
      refl).0
