-- ===== src/Analysis/Group.antt =====
-- When a group has an aggregate: `evaluate_aggregate` (crates/sentinel-core/src/analysis.rs).
use mathlib.Core.List.{Memᴰ}
use adguard_sentinel.Base.{
  ◌*◌, is_some, eqb, not, ◌&&◌, ◌||◌, ℕ, ◌+◌, ◌≤◌, ◌≡◌, String, Option, none, some, true, List, [],
  ◌∷◌, arith, leb, if◌then◌else◌, Bool-cases, inl, inr, filter_map, u64_max, leb→le, leb-false→lt,
}
use adguard_sentinel.Base.Int.{ℤ, pos, leb_ℤ}
use adguard_sentinel.Base.Float.{Float}
use adguard_sentinel.Config.Types.{BehavioralBaselineConfig}
use adguard_sentinel.Model.Observation.{TargetReport, OperationalObservation}
use adguard_sentinel.Model.Run.{AggregateObservation}
use adguard_sentinel.Analysis.Aggregate.{total_of}

module _ {F : Type 0} where
  abbrev pub observed_of : List (TargetReport F) → List (OperationalObservation F)
  observed_of = filter_map (λ r. TargetReport.operational r)

  -- The exact sum of a count, unbounded.
  abbrev pub sum_of : (OperationalObservation F → ℕ) → List (OperationalObservation F) → ℕ
  sum_of count [] = 0
  sum_of count (o ∷ os) = count o + sum_of count os

  -- A total is the exact sum, and it is there exactly where the sum fits in a `u64`.
  pub total_of_lem :
      (count : OperationalObservation F → ℕ) (total : ℕ) (os : List (OperationalObservation F))
      → total ≤ u64_max
      → total_of count total os
        ≡ (if leb (total + sum_of count os) u64_max then some (total + sum_of count os) else none)
  unfolding total_of
  total_of_lem count total [] h = ground arith
  total_of_lem count total (o ∷ os) h = elim (Bool-cases (leb (total + count o) u64_max)) [
    | inl t ↦
        ground
          (arith, t, total_of_lem count (total + count o) os (leb→le (total + count o) u64_max t))
    | inr f ↦ ground (arith, f, leb-false→lt (total + count o) u64_max f)
  ]

module _ {F : Type 0} where
  -- A report that is found under an id has it, and is one of the reports.
  abbrev IsReport : List (TargetReport F) → String × TargetReport F → Type 0
  IsReport reports e = (TargetReport.id e.1 ≡ e.0) × Memᴰ e.1 reports

  -- A member that took part: complete and with an observation.
  abbrev pub IsWhole : TargetReport F → Type 0
  IsWhole r = (r.complete ≡ true) × (is_some r.operational ≡ true)

module _ (fl : Float) (local_hour_of : ℤ → String → Option ℕ) where
  open fl use {F, of_u64, div, literal}

  -- The totals are the exact sums of the members' counters and fit in a `u64`, the ratio is that of
  -- the totals, and the baseline is ready only once it has learned for as long as is configured and
  -- has enough windows of the same hour.
  abbrev pub IsSummed :
      BehavioralBaselineConfig → List (TargetReport F) → AggregateObservation F → Type 0
  IsSummed config members o =
      let asked = sum_of (λ r. OperationalObservation.queries r) (observed_of members) in
      let blocked = sum_of (λ r. OperationalObservation.blocked r) (observed_of members) in
      (o.combined_queries ≡ asked)
      × (asked ≤ u64_max)
      × (blocked ≤ u64_max)
      × (o.combined_blocked_ratio
          ≡ (if eqb asked 0 then literal 0 0 else div (of_u64 blocked) (of_u64 asked)))
      × ((not o.baseline_ready
            || (leb_ℤ (pos (config.learning_days * 86400)) o.baseline_age_seconds
                && leb config.minimum_same_hour_samples o.same_hour_samples))
          ≡ true)
