-- ===== src/Examples/Analyses.antt =====
-- Observations of one target and of a group (crates/sentinel-core/src/analysis.rs).
use adguard_sentinel.Base.Chars.{to_ascii_lowercase, trim_end_by, trim}
use adguard_sentinel.Config.Types.{PolicyConfig}
use adguard_sentinel.Model.Condition.{ConditionEvaluation}
use adguard_sentinel.Config.Names.{normalize_dns_name, normalize_rewrite_answer}
use adguard_sentinel.Base.{
  map, ℕ, ◌+◌, ◌-◌, ◌*◌, ◌/◌, ◌^◌, ◌≡◌, refl, String, Option, none, some, true, false, List, [],
  ◌∷◌, map, compare, ltb, leb, lookup, if◌then◌else◌, unwrap_or,
}
use adguard_sentinel.Base.Int.{ℤ, pos, negsuc, saturating_sub_i64, ◌-ℤ◌}
use adguard_sentinel.Base.Chars.{decimal}
use adguard_sentinel.Base.Float.{Float}
use adguard_sentinel.Config.Types.{
  TargetConfig, TargetAuth, BehavioralBaselineConfig, RequiredFilter, RequiredRewrite,
  default_profile,
}
use adguard_sentinel.Model.Condition.{EvaluationOutcome}
use adguard_sentinel.Model.Observation.{
  TargetSample, TargetReport, TargetStatus, OperationalObservation, FilterObservation,
  RewriteObservation, incomplete,
}
use adguard_sentinel.Analysis.Window.{
  Reading, RateWindow, Combining, combine_samples, comparable_blocked_ratio,
}
use adguard_sentinel.Analysis.Behavior.{target_subject, behavioral_evaluations, trained_bounds}
use adguard_sentinel.Analysis.Baseline.{robust_bounds}
use adguard_sentinel.Analysis.Filter.{evaluate_filters}
use adguard_sentinel.Analysis.Rewrite.{evaluate_rewrite}
use adguard_sentinel.Analysis.Aggregate.{AggregateEvaluation, evaluate_aggregate}
use adguard_sentinel.Analysis.Measures.{combine_samples-alone, entry_alone}
use adguard_sentinel.Analysis.Subject.{behavioral_accounts, account, judged}
use adguard_sentinel.Analysis.Verdicts.{evaluate_filters_lem}
use adguard_sentinel.Analysis.Effective.{evaluate_rewrite_lem}

abbrev magnitude : ℤ → ℕ
magnitude (pos n) = n
magnitude (negsuc n) = 0

-- Whole numbers as a stand-in for floats: an instance that the examples compute with.
abbrev pub whole : Float
whole = record {
  F = ℕ;
  literal = λ n k. n / 10 ^ k;
  of_u64 = λ n. n;
  of_i64 = magnitude;
  to_u64 = λ n. n;
  add = λ a b. a + b;
  sub = λ a b. a - b;
  mul = λ a b. a * b;
  div = λ a b. a / b;
  abs = λ a. a;
  round = λ a. a;
  max = λ a b. if leb a b then b else a;
  midpoint = λ a b. (a + b) / 2;
  lt = ltb;
  le = leb;
  show_rounded = decimal;
  is_finite = λ a. true;
  total_cmp = compare;
}

abbrev earlier : Reading
earlier = (pos 1000, 500, 100)

abbrev later : Reading
later = (pos 1300, 800, 160)

abbrev window : RateWindow ℕ
window = record {
  local_hour = 9;
  queries = 300;
  elapsed_seconds = 300;
  query_rate = 1;
  blocked_ratio = 0;
}

abbrev seconds : ℕ
seconds = 300

abbrev sample : String → String → ℕ → TargetSample
sample run target queries = record {
  run_id = run;
  target_id = target;
  timestamp = pos 0;
  queries = queries;
  blocked = 0;
}

abbrev empty : Combining
empty = record { order = []; per_run = [] }

abbrev interleaved : List TargetSample
interleaved = sample "r1" "a" 3 ∷ sample "r2" "a" 5 ∷ sample "r1" "b" 4 ∷ []

abbrev members : List String
members = "a" ∷ "b" ∷ []

abbrev combined : Combining
combined = record {
  order = "r1" ∷ "r2" ∷ [];
  per_run = ("r1", ("a" ∷ "b" ∷ [], pos 0, 7, 0)) ∷ ("r2", ("a" ∷ [], pos 0, 5, 0)) ∷ [];
}

combine_samples-alone_example :
    entry_alone none (sample "r1" "a" 3 ∷ sample "r1" "b" 4 ∷ [])
    ≡ some (some ("a" ∷ "b" ∷ [], pos 0, 7, 0))
unfolding combine_samples lookup
combine_samples-alone_example = combine_samples-alone members "r1" empty combined interleaved refl

abbrev pub target : TargetConfig
target = record {
  id = "one";
  name = "One";
  base_url = "https://one.example/";
  auth = TargetAuth.none;
  username = none;
  password_file = none;
  policy = none;
  condition_profile = "current";
  allow_insecure_local_http = false;
}

abbrev pub digest : String → List ℕ
digest text = []

abbrev pub no_address : String → Option String
no_address text = none

abbrev observation : OperationalObservation ℕ
observation = record {
  protection_enabled = true;
  queries = 40;
  blocked = 10;
  blocked_ratio = 0;
  average_processing_seconds = 0;
  maximum_upstream_seconds = 0;
  top_client_share = 0;
}

abbrev pub answered : String → TargetReport ℕ
answered id = record (incomplete id "One" TargetStatus.complete "" "") {
  complete = true;
  operational = some observation;
}

behavioral_accounts_example :
    map account (
      behavioral_evaluations whole
        (target_subject "one" "One")
        default_profile
        true
        (window ∷ [])
        (some window)
        1)
    ≡ judged "target:one:query-rate" "query_rate" true
      ∷ judged "target:one:blocked-ratio" "blocked_ratio" true
      ∷ judged "target:one:blocking-collapsed" "blocking_collapse" true
      ∷ []
unfolding target_subject trained_bounds robust_bounds comparable_blocked_ratio
behavioral_accounts_example =
    behavioral_accounts whole (target_subject "one" "One") default_profile true (window ∷ [])
      (some window) 1

abbrev required_filter : RequiredFilter
required_filter = record {
  url = "https://lists.example/a.txt";
  enabled = true;
  maximum_age_hours = some 24;
}

abbrev kept_filter : FilterObservation
kept_filter = record {
  url = "https://lists.example/a.txt";
  server_id = pos 1;
  enabled = true;
  rules_count = 10;
  last_updated = none;
  last_updated_unix_seconds = some (pos 1000);
}

abbrev kept_policy : PolicyConfig
kept_policy = record {
  protection_enabled = none;
  upstream_mode = none;
  upstream_dns = none;
  filters = required_filter ∷ [];
  rewrites = record { enabled = none; required = [] };
}

abbrev kept_rewrite : RewriteObservation
kept_rewrite = record { domain = "nas.example"; answer = "192.0.2.1"; enabled = true }

abbrev kept_report : TargetReport ℕ
kept_report = record (answered "one") {
  filters = kept_filter ∷ [];
  rewrites = kept_rewrite ∷ [];
  rewrites_enabled = none;
}

evaluate_filters_lem_example :
    map
      (λ e. ConditionEvaluation.outcome e)
      (evaluate_filters digest target kept_policy default_profile kept_report (pos 2000))
    ≡ EvaluationOutcome.clear ∷ []
unfolding saturating_sub_i64 ◌-ℤ◌
evaluate_filters_lem_example =
    evaluate_filters_lem digest ℕ target kept_policy default_profile kept_report (pos 2000) (tt, tt)

abbrev required_rewrite : RequiredRewrite
required_rewrite = record { domain = "nas.example"; answer = "192.0.2.1"; enabled = true }

evaluate_rewrite_lem_example :
    (evaluate_rewrite digest no_address target default_profile kept_report required_rewrite).outcome
    ≡ EvaluationOutcome.active
unfolding normalize_dns_name normalize_rewrite_answer to_ascii_lowercase trim_end_by trim
evaluate_rewrite_lem_example =
    evaluate_rewrite_lem digest no_address target default_profile kept_report required_rewrite
      (tt, tt)

abbrev group : BehavioralBaselineConfig
group = record {
  target_ids = members;
  time_zone = "Etc/UTC";
  learning_days = 7;
  minimum_same_hour_samples = 1;
}

abbrev hour_of : ℤ → String → Option ℕ
hour_of time zone = some 9

abbrev group_reports : List (TargetReport ℕ)
group_reports = answered "a" ∷ answered "b" ∷ []

abbrev nothing : AggregateEvaluation ℕ
nothing = record {
  observation = record {
    local_hour = 0;
    utc_offset_minutes = pos 0;
    combined_queries = 0;
    combined_blocked_ratio = 0;
    baseline_age_seconds = pos 0;
    same_hour_samples = 0;
    baseline_ready = false;
    resolver_query_share = [];
    top_client_share = [];
  };
  evaluations = [];
}

abbrev aggregate : AggregateEvaluation ℕ
aggregate =
    unwrap_or
      (evaluate_aggregate whole hour_of group default_profile interleaved group_reports (pos 300) 9
        (pos 0))
      nothing
