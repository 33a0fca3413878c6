-- ===== src/Analysis/Aggregate.antt =====
-- `evaluate_target_behavior` and `evaluate_aggregate` (crates/sentinel-core/src/analysis.rs).
use adguard_sentinel.Base.{
  ℕ, ◌*◌, String, Option, none, some, Bool, false, not, ◌&&◌, ◌||◌, List, [], ◌∷◌, map, leb, eqb,
  if◌then◌else◌, ◌==◌, any, length, lookup, insert, filter_by, filter_map, pairs, last?, first?,
  contains, checked_add, is_none,
}
use adguard_sentinel.Base.Int.{ℤ, pos, saturating_sub_i64, leb_ℤ}
use adguard_sentinel.Base.Float.{Float}
use adguard_sentinel.Base.Opt.{◌>>=◌}
use adguard_sentinel.Config.Types.{BehavioralBaselineConfig, ConditionProfile}
use adguard_sentinel.Model.Condition.{ConditionEvaluation}
use adguard_sentinel.Model.Observation.{TargetReport, TargetSample, OperationalObservation}
use adguard_sentinel.Model.Run.{AggregateObservation}
use adguard_sentinel.Analysis.Evaluation.{Json}
use adguard_sentinel.Analysis.Window.{Reading, RateWindow, window_between, combined_readings}
use adguard_sentinel.Analysis.Behavior.{aggregate_subject, target_subject, behavioral_evaluations}

pub record AggregateEvaluation (F : Type 0) : Type 0 where
  pub observation : AggregateObservation F
  pub evaluations : List (ConditionEvaluation (Json F))

abbrev pub reading_of : TargetSample → Reading
reading_of sample = (sample.timestamp, sample.queries, sample.blocked)

abbrev pub learning_seconds : BehavioralBaselineConfig → ℤ
learning_seconds config = pos (config.learning_days * 86400)

module _ {F : Type 0} where
  abbrev pub collect_reports :
      List (String × TargetReport F) → List (TargetReport F) → List (String × TargetReport F)
  collect_reports m [] = m
  collect_reports m (r ∷ rs) = collect_reports (insert (TargetReport.id r) r m) rs

  -- The report of every member, if each has one.
  unfoldable pub members_of :
      List (String × TargetReport F) → List String → Option (List (TargetReport F))
  members_of reports [] = some []
  members_of reports (id ∷ ids) = do
    report ← lookup id reports
    rest ← members_of reports ids
    some (report ∷ rest)

  abbrev pub is_incomplete : TargetReport F → Bool
  is_incomplete report =
      not (TargetReport.complete report) || is_none (TargetReport.operational report)

  -- `try_fold` with `checked_add`.
  unfoldable pub total_of :
      (OperationalObservation F → ℕ) → ℕ → List (OperationalObservation F) → Option ℕ
  total_of count total [] = some total
  total_of count total (o ∷ os) = do t ← checked_add total (count o); total_of count t os

module _ (fl : Float) where
  open fl use {F, of_u64, div, literal}

  -- A part of a total, zero of nothing.
  abbrev pub share : ℕ → ℕ → F
  share part total = if eqb total 0 then literal 0 0 else div (of_u64 part) (of_u64 total)

  abbrev query_shares : ℕ → List (String × F) → List (TargetReport F) → List (String × F)
  query_shares total m [] = m
  query_shares total m (r ∷ rs) = elim (TargetReport.operational r) [
    | none ↦ query_shares total m rs
    | some o ↦
        query_shares total
          (insert (TargetReport.id r) (share (OperationalObservation.queries o) total) m) rs
  ]

  abbrev client_shares : List (String × F) → List (TargetReport F) → List (String × F)
  client_shares m [] = m
  client_shares m (r ∷ rs) = elim (TargetReport.operational r) [
    | none ↦ client_shares m rs
    | some o ↦
        client_shares (insert (TargetReport.id r) (OperationalObservation.top_client_share o) m) rs
  ]

  -- The local hour of a timestamp is looked up in the zone's data.
  module _ (local_hour_of : ℤ → String → Option ℕ) where
    -- The window that ends at the second reading, if it ends in this hour of the day.
    unfoldable pub same_hour_window : String → ℕ → Reading × Reading → Option (RateWindow F)
    unfolding window_between
    same_hour_window time_zone local_hour (previous, current) = do
      hour ← local_hour_of current.0 time_zone
      if eqb hour local_hour then window_between fl previous current hour else none

    unfoldable pub same_hour_windows : String → ℕ → List Reading → List (RateWindow F)
    unfolding same_hour_window
    same_hour_windows time_zone local_hour readings =
        filter_map (same_hour_window time_zone local_hour) (pairs readings)

    -- The window from the last reading to the current observation.
    unfoldable pub current_window : List Reading → Reading → ℕ → Option (RateWindow F)
    unfolding window_between
    current_window readings current local_hour = do
      previous ← last? readings
      window_between fl previous current local_hour

    abbrev is_learned : BehavioralBaselineConfig → List Reading → ℤ → Bool
    is_learned config readings now = elim (first? readings) [
      | none ↦ false
      | some oldest ↦ leb_ℤ (learning_seconds config) (saturating_sub_i64 now (oldest.0))
    ]

    unfoldable pub evaluate_target_behavior :
        BehavioralBaselineConfig
        → ConditionProfile
        → TargetReport F
        → List TargetSample
        → ℤ
        → ℕ
        → List (ConditionEvaluation (Json F))
    unfolding same_hour_windows current_window behavioral_evaluations target_subject
    evaluate_target_behavior config profile report samples now local_hour =
        if not (contains config.target_ids report.id) then [] else elim report.operational [
          | none ↦ []
          | some operational ↦
              if not report.complete
              then []
              else (let mine =
                    map reading_of
                      (filter_by (λ s. TargetSample.target_id s == report.id) samples) in
                  behavioral_evaluations fl (target_subject report.id report.name) profile
                    (is_learned config mine now)
                    (same_hour_windows config.time_zone local_hour mine)
                    (current_window mine
                      (
                        now,
                        OperationalObservation.queries operational,
                        OperationalObservation.blocked operational,
                      )
                      local_hour)
                    config.minimum_same_hour_samples)
        ]

    -- The age of the readings, zero of none.
    abbrev baseline_age : List Reading → ℤ → ℤ
    baseline_age readings now = elim (first? readings) [
      | none ↦ pos 0
      | some oldest ↦ saturating_sub_i64 now (oldest.0)
    ]

    -- What remains once the members have reported and their counters are summed.
    unfoldable pub aggregate_of :
        BehavioralBaselineConfig
        → ConditionProfile
        → List (TargetReport F)
        → List Reading
        → ℤ
        → ℕ
        → ℤ
        → ℕ
        → ℕ
        → AggregateEvaluation F
    unfolding same_hour_windows current_window behavioral_evaluations aggregate_subject
    aggregate_of config profile members readings now local_hour utc_offset_minutes queries blocked =
        let history = same_hour_windows config.time_zone local_hour readings in
        let ready =
          leb_ℤ (learning_seconds config) (baseline_age readings now)
          && leb config.minimum_same_hour_samples (length history) in
        record {
          observation = record {
            local_hour = local_hour;
            utc_offset_minutes = utc_offset_minutes;
            combined_queries = queries;
            combined_blocked_ratio = share blocked queries;
            baseline_age_seconds = baseline_age readings now;
            same_hour_samples = length history;
            baseline_ready = ready;
            resolver_query_share = query_shares queries [] members;
            top_client_share = client_shares [] members;
          };
          evaluations =
              behavioral_evaluations fl aggregate_subject profile ready history
                (current_window readings (now, queries, blocked) local_hour)
                config.minimum_same_hour_samples;
        }

    unfoldable pub evaluate_aggregate :
        BehavioralBaselineConfig
        → ConditionProfile
        → List TargetSample
        → List (TargetReport F)
        → ℤ
        → ℕ
        → ℤ
        → Option (AggregateEvaluation F)
    unfolding members_of total_of combined_readings aggregate_of
    evaluate_aggregate config profile samples reports now local_hour utc_offset_minutes = do
      members ← members_of (collect_reports [] reports) config.target_ids
      operational ←
          (if any is_incomplete members
            then none
            else some (filter_map (λ r. TargetReport.operational r) members))
      queries ← total_of (λ o. OperationalObservation.queries o) 0 operational
      blocked ← total_of (λ o. OperationalObservation.blocked o) 0 operational
      readings ← combined_readings config samples
      some (
          aggregate_of config profile members readings now local_hour utc_offset_minutes queries
            blocked)
