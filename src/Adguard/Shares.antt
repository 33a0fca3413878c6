-- ===== src/Adguard/Shares.antt =====
-- What the statistics of a target are bounded by, and what an observation comes to.
use adguard_sentinel.Base.{ℕ, ◌≤◌, ◌≡◌, inl, inr, String, Bool, List, [], ◌∷◌, arith}
use adguard_sentinel.Base.Float.{Float}
use adguard_sentinel.Base.Result.{ok, Result-cases}
use adguard_sentinel.Model.Observation.{OperationalObservation}
use adguard_sentinel.Adguard.Types.{StatsResponse, invalid_stats}
use adguard_sentinel.Adguard.Upstreams.{single}
use adguard_sentinel.Adguard.Stats.{top_client, max_u64, ratio, normalize_stats}

top_client-le :
    (queries : ℕ) (seen : List String) (best : ℕ) (entries : List (List (String × ℕ))) (n : ℕ)
    → best ≤ queries
    → top_client queries seen best entries ≡ ok n
    → n ≤ queries
unfolding top_client single invalid_stats
top_client-le queries seen best [] n le h = ground arith
top_client-le queries seen best ([] ∷ entries) n le h = ground arith
top_client-le queries seen best ((c ∷ d ∷ rest) ∷ entries) n le h = ground arith
top_client-le queries seen best ((c ∷ []) ∷ entries) n le h =
    ground (arith, top_client-le queries (c.0 ∷ seen) (max_u64 best c.1) entries n)

module _ (fl : Float) where
  open fl use {F}

  -- Statistics that are accepted never have more blocked than asked, and both shares are those of
  -- counts that the queries bound.
  pub normalize_stats-le :
      (protection : Bool) (stats : StatsResponse F) (o : OperationalObservation F)
      → normalize_stats fl protection stats ≡ ok o
      → (o.blocked ≤ o.queries)
        × (o.blocked_ratio ≡ ratio fl o.blocked o.queries)
        × (top : ℕ) × (top ≤ o.queries)
        × (o.top_client_share ≡ ratio fl top o.queries)
  unfolding normalize_stats invalid_stats
  normalize_stats-le protection stats o h =
      elim (Result-cases (top_client stats.num_dns_queries [] 0 stats.top_clients)) [
        | inl (e, failed) ↦ ground arith
        | inr (top, found) ↦ (
          ground arith,
          ground arith,
          top,
          ground (
            arith,
            top_client-le stats.num_dns_queries [] 0 stats.top_clients top (omega arith) found,
          ),
          ground arith,
        )
      ]
