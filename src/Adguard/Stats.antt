-- ===== src/Adguard/Stats.antt =====
-- `normalize_stats` and `ratio`.
use adguard_sentinel.Base.{
  ℕ, String, Option, none, some, Bool, true, false, not, ◌||◌, List, [], ◌∷◌, ltb, eqb, map,
  if◌then◌else◌, contains, unwrap_or,
}
use Prim.Native.Nat.{Ordering}
use adguard_sentinel.Base.Chars.{is_empty_text}
use adguard_sentinel.Base.Float.{Float}
use adguard_sentinel.Base.Result.{Result, ok, err, ◌>>=◌, ◌>>◌}
use adguard_sentinel.Model.Observation.{OperationalObservation, UpstreamObservation}
use adguard_sentinel.Adguard.Types.{AdGuardError, StatsResponse, invalid_stats}
use adguard_sentinel.Adguard.Upstreams.{single, normalize_upstreams}

-- `u64::max`.
abbrev pub max_u64 : ℕ → ℕ → ℕ
max_u64 a b = if ltb a b then b else a

-- The loop over `top_clients`: the greatest count.
unfoldable pub top_client : ℕ → List String → ℕ → List (List (String × ℕ)) → Result AdGuardError ℕ
unfolding invalid_stats single
top_client queries seen best [] = ok best
top_client queries seen best (entry ∷ entries) =
    elim (single "each top_clients entry must contain exactly one client" entry) [
      | err e ↦ err e
      | ok (identity, count) ↦
          (let rest = top_client queries (identity ∷ seen) (max_u64 best count) entries in
            if is_empty_text identity || contains seen identity || ltb queries count
            then invalid_stats "top_clients contains invalid or duplicate data"
            else rest)
    ]

-- `if failed { return invalid_stats(...) }`.
abbrev pub reject_if : Bool → String → Result AdGuardError (Unit {0})
reject_if true detail = invalid_stats detail
reject_if false detail = ok tt

module _ (fl : Float) where
  open fl use {F, is_finite, lt, literal, of_u64, div, total_cmp}

  -- `max_by(f64::total_cmp)`: the last one of the greatest.
  unfoldable pub maximum : Option F → List F → Option F
  maximum best [] = best
  maximum none (x ∷ xs) = maximum (some x) xs
  maximum (some b) (x ∷ xs) =
      maximum (elim (total_cmp b x) [ Ordering.gt ↦ some b | _ ↦ some x ]) xs

  unfoldable pub ratio : ℕ → ℕ → F
  ratio numerator denominator =
      if eqb denominator 0 then literal 0 0 else div (of_u64 numerator) (of_u64 denominator)

  unfoldable pub normalize_stats :
      Bool → StatsResponse F → Result AdGuardError (OperationalObservation F)
  unfolding invalid_stats normalize_upstreams maximum top_client ratio
  normalize_stats protection stats = do
    reject_if
        (ltb (StatsResponse.num_dns_queries stats) (StatsResponse.num_blocked_filtering stats))
        "num_blocked_filtering exceeds num_dns_queries"
    reject_if
        (not (is_finite (StatsResponse.avg_processing_time stats))
          || lt (StatsResponse.avg_processing_time stats) (literal 0 0))
        "avg_processing_time must be finite and nonnegative"
    upstreams ←
        normalize_upstreams fl (StatsResponse.top_upstreams_avg_time stats)
          (StatsResponse.top_upstreams_responses stats)
    top ← top_client (StatsResponse.num_dns_queries stats) [] 0 (StatsResponse.top_clients stats)
    ok (record {
      protection_enabled = protection;
      queries = stats.num_dns_queries;
      blocked = stats.num_blocked_filtering;
      blocked_ratio = ratio stats.num_blocked_filtering stats.num_dns_queries;
      average_processing_seconds = stats.avg_processing_time;
      maximum_upstream_seconds =
          unwrap_or (maximum none (map (λ u. UpstreamObservation.average_seconds u) upstreams))
            (literal 0 0);
      top_client_share = ratio top stats.num_dns_queries;
    })
