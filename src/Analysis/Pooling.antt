-- ===== src/Analysis/Pooling.antt =====
-- What a window of upstream counters says: `upstream_window` (crates/sentinel-core/src/analysis.rs).
use adguard_sentinel.Base.{
  ◌+◌, ◌≡◌, String, none, some, true, false, List, [], ◌∷◌, arith, ◌||◌, All, if◌then◌else◌, sym,
  ap, subst, ◌∙◌, ◌++◌, ◌==◌, eq_iff, any, map, set_insert, ℕ, refl, set_of,
}
use mathlib.Core.Option.{some-injective}
use adguard_sentinel.Base.Int.{ℤ, pos, leb_ℤ, eqb_ℤ, div_euclid, sub_i64}
use adguard_sentinel.Base.Float.{Float}
use adguard_sentinel.Base.Opt.{>>=-some, unguarded-some, guarded-some}
use adguard_sentinel.Model.Observation.{UpstreamSample, UpstreamCounter}
use adguard_sentinel.Analysis.Window.{rate_window_maximum_seconds}
use adguard_sentinel.Analysis.Upstream.{
  UpstreamTotals, find_counter, counter_difference, counter_differences, identities, same_unit,
  statistics_unit, upstream_window,
}

-- The counters of an upstream in a reading: none has counted nothing.
abbrev pub counted : List UpstreamCounter → String → ℕ × ℕ
counted [] identity = (0, 0)
counted (c ∷ cs) identity =
    if c.identity == identity then (c.responses, c.total_microseconds) else counted cs identity

find_counter-counted :
    (s : UpstreamSample) (cs : List UpstreamCounter) (identity : String)
    → let found = find_counter (record s { upstreams = cs }) identity in
      (found.responses ≡ (counted cs identity).0)
      × (found.total_microseconds ≡ (counted cs identity).1)
unfolding find_counter
find_counter-counted s [] identity = (refl, refl)
find_counter-counted s (c ∷ cs) identity = ground (arith, find_counter-counted s cs identity)

-- The counters grew by exactly these totals between the two readings.
pub IsGrowth : UpstreamSample → UpstreamSample → String × UpstreamTotals → Type 0
IsGrowth previous current (identity, d) =
    ((counted previous.upstreams identity).0 + d.responses ≡ (counted current.upstreams identity).0)
    × ((counted previous.upstreams identity).1 + d.total_microseconds
        ≡ (counted current.upstreams identity).1)

-- The unit of the statistics that a second belongs to.
abbrev pub unit_of : ℤ → ℤ
unit_of seconds = div_euclid seconds 3600

-- Both readings, from their start to their end, lie in one unit.
abbrev pub IsOneUnit : UpstreamSample → UpstreamSample → Type 0
IsOneUnit previous current =
    (eqb_ℤ (unit_of previous.observation_started) (unit_of previous.timestamp) ≡ true)
    × (eqb_ℤ (unit_of current.observation_started) (unit_of current.timestamp) ≡ true)
    × (eqb_ℤ (unit_of previous.timestamp) (unit_of current.timestamp) ≡ true)

same_unit-IsOneUnit :
    (previous current : UpstreamSample)
    → same_unit previous current ≡ some true
    → IsOneUnit previous current
unfolding statistics_unit
same_unit-IsOneUnit previous current h = ground arith

any-set_insert :
    (id s : String) (ss : List String)
    → any (λ t. t == id) (set_insert s ss) ≡ ((s == id) || any (λ t. t == id) ss)
any-set_insert id s [] = refl
any-set_insert id s (t ∷ ts) = ground (arith, any-set_insert id s ts, eq_iff t s)

-- The identities are those of the counters of either reading.
any-identities :
    (id : String) (cs : List UpstreamCounter)
    → any (λ t. t == id) (set_of (map (λ c. UpstreamCounter.identity c) cs))
      ≡ any (λ c. UpstreamCounter.identity c == id) cs
any-identities id [] = refl
any-identities id (c ∷ cs) = ground (
  arith,
  any-set_insert id c.identity (set_of (map (λ c. UpstreamCounter.identity c) cs)),
  any-identities id cs,
)

module _ (previous current : UpstreamSample) where
  counter_difference-IsGrowth :
      (identity : String) (d : UpstreamTotals)
      → counter_difference previous current identity ≡ some d
      → IsGrowth previous current (identity, d)
  unfolding counter_difference IsGrowth
  counter_difference-IsGrowth identity d h = ground (
    arith,
    find_counter-counted previous previous.upstreams identity,
    find_counter-counted current current.upstreams identity,
  )

  counter_differences-IsGrowth :
      (is : List String) (ds : List (String × UpstreamTotals))
      → counter_differences previous current is ≡ some ds
      → All (IsGrowth previous current) ds
  unfolding counter_differences
  counter_differences-IsGrowth [] ds h =
      subst (All (IsGrowth previous current)) (some-injective [] ds h) tt
  counter_differences-IsGrowth (i ∷ is) ds h =
      let (d, hd, h1) = >>=-some (counter_difference previous current i) _ ds h in
      let (rest, hr, h2) = >>=-some (counter_differences previous current is) _ ds h1 in
      subst (All (IsGrowth previous current)) (some-injective ((i, d) ∷ rest) ds h2)
        (counter_difference-IsGrowth i d hd, counter_differences-IsGrowth is rest hr)

  counter_differences-any :
      (id : String) (is : List String) (ds : List (String × UpstreamTotals))
      → counter_differences previous current is ≡ some ds
      → any (λ t. t.0 == id) ds ≡ any (λ i. i == id) is
  unfolding counter_differences
  counter_differences-any id [] ds h = ground arith
  counter_differences-any id (i ∷ is) ds h =
      let (d, hd, h1) = >>=-some (counter_difference previous current i) _ ds h in
      let (rest, hr, h2) = >>=-some (counter_differences previous current is) _ ds h1 in
      subst (λ ds'. any (λ t. t.0 == id) ds' ≡ any (λ j. j == id) (i ∷ is))
        (some-injective ((i, d) ∷ rest) ds h2)
        (ap (λ b. (i == id) || b) (counter_differences-any id is rest hr))

module _ (fl : Float) where
  -- A window is measured only inside one statistics unit, forwards in time and over at most 600
  -- seconds, and its totals are exactly what each counter of either reading grew by: no counter
  -- decreased.
  pub upstream_window-exact :
      (previous current : UpstreamSample) (elapsed : ℤ) (totals : List (String × UpstreamTotals))
      → upstream_window fl previous current ≡ some (elapsed, totals)
      → IsOneUnit previous current
        × (elapsed ≡ sub_i64 current.timestamp previous.timestamp)
        × (leb_ℤ elapsed (pos 0) ≡ false)
        × (Float.lt fl (Float.literal fl 600 0) (Float.of_i64 fl elapsed) ≡ false)
        × All (IsGrowth previous current) totals
        × ((identity : String)
            → any (λ t. t.0 == identity) totals
              ≡ any
                  (λ c. UpstreamCounter.identity c == identity)
                  (previous.upstreams ++ current.upstreams))
  unfolding upstream_window
  upstream_window-exact previous current elapsed totals h =
      let gap = sub_i64 current.timestamp previous.timestamp in
      let (open_gap, h1) =
        unguarded-some
          (leb_ℤ gap (pos 0) || Float.lt fl (rate_window_maximum_seconds fl) (Float.of_i64 fl gap))
          _ (elapsed, totals) h in
      let (same, hs, h2) = >>=-some (same_unit previous current) _ (elapsed, totals) h1 in
      let (ds, hd, h3) =
        >>=-some
          (if same
            then counter_differences previous current (identities previous current)
            else none)
          _ (elapsed, totals) h2 in
      let (whole, hw) =
        guarded-some same (counter_differences previous current (identities previous current)) ds
          hd in
      let pair : ◌≡◌ {A = ℤ × List (String × UpstreamTotals)} (gap, ds) (elapsed, totals) =
        some-injective (gap, ds) (elapsed, totals) h3 in
      let distinct = identities previous current in
      (
        same_unit-IsOneUnit previous current (ground (arith, hs, whole)),
        sym (ap (λ p. p.0) pair),
        ground (arith, open_gap, pair),
        ground (arith, open_gap, pair),
        subst (All (IsGrowth previous current)) (ap (λ p. p.1) pair)
            (counter_differences-IsGrowth previous current distinct ds hw),
        λ identity.
            ap (any (λ t. t.0 == identity)) (sym (ap (λ p. p.1) pair))
            ∙ counter_differences-any previous current identity distinct ds hw
            ∙ any-identities identity (previous.upstreams ++ current.upstreams),
      )
