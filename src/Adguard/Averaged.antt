-- ===== src/Adguard/Averaged.antt =====
-- The upstreams that the second loop of `normalize_upstreams` collects.
use adguard_sentinel.Base.{
  ℕ, ◌≡◌, String, Option, none, Bool, true, false, not, ◌||◌, List, [], ◌∷◌, arith, ◌==◌, eq_iff,
  is_some, contains, any, All, All-imp, lookup, if◌then◌else◌, subst,
}
use adguard_sentinel.Base.Chars.{is_empty_text}
use adguard_sentinel.Base.Float.{Float}
use adguard_sentinel.Base.Order.{IsApart}
use adguard_sentinel.Base.Result.{ok, ok-injective, >>=-ok}
use adguard_sentinel.Model.Observation.{UpstreamObservation}
use adguard_sentinel.Adguard.Types.{invalid_stats}
use adguard_sentinel.Adguard.Upstreams.{single, responses_of, collect_averages}

abbrev pub same_identity : {F : Type 0} → UpstreamObservation F → UpstreamObservation F → Bool
same_identity a b = a.identity == b.identity

pub same_identity_symm :
    {F : Type 0} (a b : UpstreamObservation F)
    → same_identity a b ≡ false
    → same_identity b a ≡ false
same_identity_symm a b h =
    ground (arith, eq_iff a.identity b.identity, eq_iff b.identity a.identity)

-- The count of an upstream is the known one, and is there, where the lists are complete; there is
-- none where they may be truncated.
abbrev pub IsCounted : {F : Type 0} → Bool → (String → Option ℕ) → UpstreamObservation F → Type 0
IsCounted truncated count_of u =
    (u.responses ≡ (if truncated then none else count_of u.identity))
    × ((truncated || is_some u.responses) ≡ true)

pub responses_of-ok :
    (truncated : Bool) (identity : String) (counts : List (String × ℕ)) (r : Option ℕ)
    → responses_of truncated identity counts ≡ ok r
    → (r ≡ (if truncated then none else lookup identity counts)) × ((truncated || is_some r) ≡ true)
unfolding responses_of invalid_stats
responses_of-ok true identity counts r h = ground arith
responses_of-ok false identity counts r h = ground arith

module _ (fl : Float) where
  open fl use {F, is_finite, lt, literal}

  -- What the second loop has found out of the averages.
  abbrev pub IsCollected :
      Bool → List (String × ℕ) → List String → List (UpstreamObservation F) × List String → Type 0
  IsCollected truncated counts seen out =
      All (λ u. contains seen (UpstreamObservation.identity u) ≡ false) out.0
      × IsApart same_identity out.0
      × All (IsCounted truncated (λ id. lookup id counts)) out.0
      × ((id : String)
          → contains out.1 id ≡ (contains seen id || any (λ u. u.identity == id) out.0))

  pub collect_averages-ok :
      (truncated : Bool) (counts : List (String × ℕ)) (seen : List String)
      (entries : List (List (String × F))) (out : List (UpstreamObservation F) × List String)
      → collect_averages fl truncated counts seen entries ≡ ok out
      → IsCollected truncated counts seen out
  unfolding collect_averages single invalid_stats
  collect_averages-ok truncated counts seen [] out h =
      subst (IsCollected truncated counts seen) (ok-injective ([], seen) out h)
        (tt, tt, tt, λ id. ground arith)
  collect_averages-ok truncated counts seen ([] ∷ entries) out h = ground arith
  collect_averages-ok truncated counts seen ((c ∷ d ∷ rest) ∷ entries) out h = ground arith
  collect_averages-ok truncated counts seen ((c ∷ []) ∷ entries) out h =
      let clear : (is_empty_text c.0
            || contains seen c.0
            || not (is_finite c.1)
            || lt c.1 (literal 0 0))
          ≡ false =
        ground arith in
      let (r, known, next) = >>=-ok (responses_of truncated c.0 counts) _ out (rw clear at h) in
      let (rest, found, e) =
        >>=-ok (collect_averages fl truncated counts (c.0 ∷ seen) entries) _ out next in
      let (fresh, apart, counted, met) =
        collect_averages-ok truncated counts (c.0 ∷ seen) entries rest found in
      let u : UpstreamObservation F = record {
        identity = c.0;
        average_seconds = c.1;
        responses = r;
      } in
      subst (IsCollected truncated counts seen) (ok-injective (u ∷ rest.0, rest.1) out e) (
        (ground arith, All-imp (λ o f. ground arith) rest.0 fresh),
        (All-imp (λ o f. ground arith) rest.0 fresh, apart),
        (responses_of-ok truncated c.0 counts r known, counted),
        λ id. ground (arith, met id),
      )
