-- ===== src/Analysis/Window.antt =====
-- Measurement windows: `window_between`, `combined_readings`, `comparable_blocked_ratio`.
use adguard_sentinel.Base.{
  ℕ, ◌-◌, String, Option, none, some, Bool, not, ◌||◌, List, [], ◌∷◌, ◌++◌, ltb, leb, eqb,
  if◌then◌else◌, length, contains, lookup, insert, checked_add, filter_map,
}
use adguard_sentinel.Base.Int.{ℤ, sub_i64}
use adguard_sentinel.Base.Float.{Float}
use adguard_sentinel.Base.Opt.{◌>>=◌}
use adguard_sentinel.Config.Types.{BehavioralBaselineConfig}
use adguard_sentinel.Model.Observation.{TargetSample}

-- A reading: the timestamp, the cumulative queries, the cumulative blocked queries.
abbrev pub Reading : Type 0
Reading = ℤ × ℕ × ℕ

pub record RateWindow (F : Type 0) : Type 0 where
  pub local_hour : ℕ
  pub queries : ℕ
  pub elapsed_seconds : F
  pub query_rate : F
  pub blocked_ratio : F

abbrev pub rate_window_minimum_queries : ℕ
rate_window_minimum_queries = 100

unfoldable pub comparable_blocked_ratio : {F : Type 0} → RateWindow F → Option F
comparable_blocked_ratio w =
    if leb rate_window_minimum_queries w.queries then some w.blocked_ratio else none

module _ (fl : Float) where
  open fl use {F, of_i64, of_u64, is_finite, le, lt, div, literal}

  abbrev pub rate_window_maximum_seconds : F
  rate_window_maximum_seconds = literal 600 0

  -- The gap is unusable: not finite, not positive, or longer than a window may be.
  abbrev pub gap_unusable : F → Bool
  gap_unusable elapsed =
      not (is_finite elapsed) || le elapsed (literal 0 0) || lt rate_window_maximum_seconds elapsed

  unfoldable pub window_between : Reading → Reading → ℕ → Option (RateWindow F)
  window_between previous current local_hour =
      let elapsed = of_i64 (sub_i64 current.0 previous.0) in
      let queries = current.1 - previous.1 in
      let blocked = current.2 - previous.2 in
      if ltb current.1 previous.1 || ltb current.2 previous.2
      then none
      else if gap_unusable elapsed
      then none
      else if ltb queries blocked
      then none
      else some (record {
        local_hour = local_hour;
        queries = queries;
        elapsed_seconds = elapsed;
        query_rate = div (of_u64 queries) elapsed;
        blocked_ratio =
            if eqb queries 0 then literal 0 0 else div (of_u64 blocked) (of_u64 queries);
      })

-- The entry of a run: its distinct members, its timestamp, and the two sums.
abbrev pub Entry : Type 0
Entry = List String × ℤ × ℕ × ℕ

-- The variables of the loop: `order` and `per_run`.
pub record Combining : Type 0 where
  pub order : List String
  pub per_run : List (String × Entry)

-- `or_insert_with(...)`.
abbrev pub entry_or_new : Option Entry → TargetSample → Entry
entry_or_new none sample = ([], sample.timestamp, 0, 0)
entry_or_new (some e) sample = e

abbrev pub entry_of : Combining → TargetSample → Entry
entry_of c sample = entry_or_new (lookup sample.run_id c.per_run) sample

abbrev pub order_of : Combining → TargetSample → List String
order_of c sample = elim (lookup sample.run_id c.per_run) [
  | none ↦ c.order ++ sample.run_id ∷ []
  | some e ↦ c.order
]

-- The sums take a member's counters once.
unfoldable pub add_member : Entry → TargetSample → Option Entry
add_member e sample = if contains e.0 sample.target_id then some e else (do
  queries ← checked_add e.2 sample.queries
  blocked ← checked_add e.3 sample.blocked
  some (e.0 ++ sample.target_id ∷ [], e.1, queries, blocked))

unfoldable pub combine_sample : List String → Combining → TargetSample → Option Combining
unfolding add_member lookup insert
combine_sample target_ids c sample =
    if not (contains target_ids sample.target_id) then some c else (do
      e ← add_member (entry_of c sample) sample
      some (record { order = order_of c sample; per_run = insert sample.run_id e c.per_run }))

unfoldable pub combine_samples : List String → Combining → List TargetSample → Option Combining
unfolding combine_sample
combine_samples target_ids c [] = some c
combine_samples target_ids c (s ∷ ss) = do
  c' ← combine_sample target_ids c s
  combine_samples target_ids c' ss

-- The runs in which every member reported.
abbrev pub whole_run : List String → Combining → String → Option Reading
whole_run target_ids c run = do
  e ← lookup run c.per_run
  if eqb (length e.0) (length target_ids) then some (e.1, e.2, e.3) else none

unfoldable pub combined_readings :
    BehavioralBaselineConfig → List TargetSample → Option (List Reading)
unfolding combine_samples
combined_readings config samples = do
  c ← combine_samples config.target_ids (record { order = []; per_run = [] }) samples
  some (filter_map (whole_run config.target_ids c) c.order)
