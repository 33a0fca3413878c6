-- ===== src/Store/Persist.antt =====
-- `insert_run`, `insert_targets`, `insert_aggregate`, `insert_evaluations`: the rows of a run. A row
-- whose primary key is there already, or that a CHECK of schemas/state-v3.sql forbids, is refused;
-- the parents that its foreign keys name are inserted before it.
use adguard_sentinel.Base.{
  ℕ, suc, ◌-◌, ◌^◌, String, Option, none, some, Bool, true, false, ◌&&◌, List, [], ◌∷◌, ◌++◌, map,
  leb, if◌then◌else◌, ◌==◌, any, find_by,
}
use mathlib.Core.Option
use adguard_sentinel.Base.Int.{pos, leb_ℤ}
use adguard_sentinel.Base.Float.{Float}
use adguard_sentinel.Base.Result.{Result, ok, err, ◌>>=◌, ◌>>◌}
use adguard_sentinel.Model.Condition.{ConditionState, ConditionEvaluation}
use adguard_sentinel.Model.Observation.{
  TargetReport, UpstreamObservation, OperationalObservation, DnsObservation,
}
use adguard_sentinel.Model.Run.{RunReport, RunHealth, ExitReport, AggregateObservation}
use adguard_sentinel.Store.Tables.{
  Database, RunRow, TargetRow, UpstreamRow, FilterRow, RewriteRow, AggregateRow, EvaluationRow,
  StoreError, sqlite, invalid_data, constraint_violation,
}

-- `INSERT` into a table whose primary key is what `same` compares.
unfoldable pub insert_row {ℓ} :
    {A : Type ℓ} → (A → A → Bool) → A → List A → Result StoreError (List A)
insert_row same row rows =
    if any (same row) rows then err (sqlite constraint_violation) else ok (rows ++ row ∷ [])

-- A CHECK.
abbrev pub check : Bool → Result StoreError (Unit {0})
check true = ok tt
check false = err (sqlite constraint_violation)

unfoldable pub i64_from_usize : ℕ → Result StoreError ℕ
i64_from_usize value =
    if leb value (2 ^ 63 - 1) then ok value else err (invalid_data "value exceeds SQLite integer")

abbrev run_key : RunRow → RunRow → Bool
run_key a b = a.id == b.id

abbrev filter_key : FilterRow → FilterRow → Bool
filter_key a b =
    (a.run_id == b.run_id) && (a.target_id == b.target_id) && (a.filter.url == b.filter.url)

abbrev rewrite_key : RewriteRow → RewriteRow → Bool
rewrite_key a b =
    (a.run_id == b.run_id)
    && (a.target_id == b.target_id)
    && (a.rewrite.domain == b.rewrite.domain)
    && (a.rewrite.answer == b.rewrite.answer)

module _ {F : Type 0} where
  abbrev target_key : TargetRow F → TargetRow F → Bool
  target_key a b = (a.run_id == b.run_id) && (a.target_id == b.target_id)

  abbrev upstream_key : UpstreamRow F → UpstreamRow F → Bool
  upstream_key a b =
      (a.run_id == b.run_id)
      && (a.target_id == b.target_id)
      && (a.upstream.identity == b.upstream.identity)

  abbrev aggregate_key : AggregateRow F → AggregateRow F → Bool
  aggregate_key a b = a.run_id == b.run_id

  unfoldable pub target_row : String → TargetReport F → TargetRow F
  target_row run_id t = record {
    run_id = run_id;
    target_id = t.id;
    target_name = t.name;
    status = t.status;
    complete = t.complete;
    server_version = t.server_version;
    protection_enabled =
        Option.map (λ o. OperationalObservation.protection_enabled o) t.operational;
    queries = Option.map (λ o. OperationalObservation.queries o) t.operational;
    blocked = Option.map (λ o. OperationalObservation.blocked o) t.operational;
    counters_exact = true;
    blocked_ratio = Option.map (λ o. OperationalObservation.blocked_ratio o) t.operational;
    average_processing_seconds =
        Option.map (λ o. OperationalObservation.average_processing_seconds o) t.operational;
    maximum_upstream_seconds =
        Option.map (λ o. OperationalObservation.maximum_upstream_seconds o) t.operational;
    top_client_share = Option.map (λ o. OperationalObservation.top_client_share o) t.operational;
    dns_upstream_mode = Option.map (λ d. DnsObservation.upstream_mode d) t.dns;
    dns_upstreams = Option.map (λ d. DnsObservation.upstream_dns d) t.dns;
    filtering_enabled = t.filtering_enabled;
    rewrites_enabled = t.rewrites_enabled;
    error_kind = t.error_kind;
    error_detail = t.error_detail;
  }

-- `for row in rows { INSERT }`.
unfoldable pub insert_rows {ℓ} :
    {A : Type ℓ} → (A → A → Bool) → List A → List A → Result StoreError (List A)
unfolding insert_row
insert_rows same [] table = ok table
insert_rows same (row ∷ rows) table = do
  table' ← insert_row same row table
  insert_rows same rows table'

module _ (fl : Float) where
  open fl use {F, le, literal}

  -- The upstreams with their ordinals; `average_seconds` has a CHECK.
  unfoldable pub insert_upstreams :
      String
      → String
      → ℕ
      → List (UpstreamObservation F)
      → List (UpstreamRow F)
      → Result StoreError (List (UpstreamRow F))
  unfolding insert_row i64_from_usize
  insert_upstreams run_id target_id n [] table = ok table
  insert_upstreams run_id target_id n (u ∷ us) table = do
    ordinal ← i64_from_usize n
    check (le (literal 0 0) (UpstreamObservation.average_seconds u))
    table' ←
        insert_row upstream_key
          (record { run_id = run_id; target_id = target_id; ordinal = ordinal; upstream = u }) table
    insert_upstreams run_id target_id (suc n) us table'

  -- The CHECKs of the group's row.
  abbrev aggregate_is_valid : AggregateObservation F → Bool
  aggregate_is_valid a =
      leb a.local_hour 23
      && le (literal 0 0) a.combined_blocked_ratio
      && le a.combined_blocked_ratio (literal 1 0)
      && leb_ℤ (pos 0) a.baseline_age_seconds

  module _ {V : Type 0} where
    -- `insert_run`. `exit_code` has a CHECK.
    unfoldable pub insert_run : Database F V → RunReport F V → Result StoreError (Database F V)
    unfolding insert_row i64_from_usize
    insert_run db report = do
      expected ← i64_from_usize report.expected_targets
      complete ← i64_from_usize report.complete_targets
      minimum ← i64_from_usize report.minimum_complete_targets
      check (leb (ExitReport.code report.exit) 5)
      runs ←
          insert_row run_key
            (record {
              id = report.run_id;
              started_at = report.started_at;
              completed_at = report.completed_at;
              mode = report.mode;
              config_sha256 = report.config_sha256;
              status = report.run_status;
              expected_targets = expected;
              complete_targets = complete;
              minimum_targets = minimum;
              exit_code = ExitReport.code report.exit;
              health_issues = RunHealth.issues report.health;
              delivery_activity = report.delivery_activity;
            })
            db.runs
      ok (record db { runs = runs })

    -- The body of the loop of `insert_targets`.
    unfoldable pub insert_target :
        Database F V → String → TargetReport F → Result StoreError (Database F V)
    unfolding insert_row insert_rows insert_upstreams target_row
    insert_target db run_id target = do
      targets ← insert_row target_key (target_row run_id target) db.targets
      upstreams ←
          insert_upstreams run_id (TargetReport.id target) 0 (TargetReport.upstreams target)
            db.upstreams
      filters ←
          insert_rows filter_key
            (map {B = FilterRow}
              (λ f. record { run_id = run_id; target_id = TargetReport.id target; filter = f })
              (TargetReport.filters target))
            db.filters
      rewrites ←
          insert_rows rewrite_key
            (map {B = RewriteRow}
              (λ r. record { run_id = run_id; target_id = TargetReport.id target; rewrite = r })
              (TargetReport.rewrites target))
            db.rewrites
      ok (record db {
        targets = targets;
        upstreams = upstreams;
        filters = filters;
        rewrites = rewrites;
      })

    unfoldable pub insert_targets :
        Database F V → String → List (TargetReport F) → Result StoreError (Database F V)
    unfolding insert_target
    insert_targets db run_id [] = ok db
    insert_targets db run_id (target ∷ targets) = do
      db' ← insert_target db run_id target
      insert_targets db' run_id targets

    unfoldable pub insert_aggregate :
        Database F V → String → Option (AggregateObservation F) → Result StoreError (Database F V)
    unfolding insert_row i64_from_usize
    insert_aggregate db run_id none = ok db
    insert_aggregate db run_id (some aggregate) = do
      _ ← i64_from_usize (AggregateObservation.same_hour_samples aggregate)
      check (aggregate_is_valid aggregate)
      aggregates ←
          insert_row aggregate_key (record { run_id = run_id; aggregate = aggregate }) db.aggregates
      ok (record db { aggregates = aggregates })

-- `SELECT episode_id FROM condition_state WHERE condition_id = ?2`, null where there is no row.
unfoldable pub episode_of : List ConditionState → String → Option String
episode_of states condition_id = elim (find_by (λ s. s.id == condition_id) states) [
  | none ↦ none
  | some s ↦ ConditionState.episode_id s
]

abbrev evaluation_key : {V : Type 0} → EvaluationRow V → EvaluationRow V → Bool
evaluation_key a b = (a.run_id == b.run_id) && (a.condition_id == b.condition_id)

module _ {F V : Type 0} where
  unfoldable pub insert_evaluations :
      Database F V → String → List (ConditionEvaluation V) → Result StoreError (Database F V)
  unfolding insert_rows episode_of
  insert_evaluations db run_id evaluations = do
    rows ←
        insert_rows evaluation_key
          (map {B = EvaluationRow V}
            (λ e. record {
              run_id = run_id;
              condition_id = ConditionEvaluation.id e;
              episode_id = episode_of db.states (ConditionEvaluation.id e);
              evaluation = e;
            })
            evaluations)
          db.evaluations
    ok (record db { evaluations = rows })
