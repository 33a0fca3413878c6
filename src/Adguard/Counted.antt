-- ===== src/Adguard/Counted.antt =====
-- What the normalized upstreams of a target are.
use adguard_sentinel.Base.{
  ℕ, ◌≡◌, refl, String, Bool, true, false, not, ◌&&◌, ◌||◌, List, [], ◌∷◌, ◌++◌, map, arith, ◌==◌,
  eq_iff, is_some, contains, any, All, All-imp, All-append, sort_with, lookup, length, leb,
  if◌then◌else◌, Bool-cases, inl, inr, subst, ap, sym, ◌∙◌, any-append,
}
use adguard_sentinel.Base.Float.{Float}
use adguard_sentinel.Base.Order.{
  IsAscending, IsApart, str_leb_total, sort_with-IsAscending, sort_with-All, sort_with-IsApart,
  IsApart-append, any-sort_with,
}
use adguard_sentinel.Base.Result.{ok, ok-injective, >>=-ok}
use adguard_sentinel.Model.Observation.{UpstreamObservation}
use adguard_sentinel.Adguard.Upstreams.{
  upstream_list_limit, collect_counts, by_identity, unseen, collect_averages, silent,
  normalize_upstreams,
}
use adguard_sentinel.Adguard.Entries.{reported, same_entry, lookup-apart, collect_counts-ok}
use adguard_sentinel.Adguard.Averaged.{
  same_identity, same_identity_symm, IsCounted, IsCollected, collect_averages-ok,
}

module _ (fl : Float) where
  open fl use {F}

  -- The upstreams that were counted without an average, as they come after the averages.
  abbrev added : Bool → List String → List (String × ℕ) → List (UpstreamObservation F)
  added truncated seen counts = if truncated then [] else map (silent fl) (unseen seen counts)

  silent-fresh :
      (counts : List (String × ℕ)) (seen : List String)
      → All
          (λ u. contains seen (UpstreamObservation.identity u) ≡ false)
          (map (silent fl) (unseen seen counts))
  silent-fresh [] seen = tt
  silent-fresh (c ∷ cs) seen = ground (arith, silent-fresh cs seen)

  silent-All :
      (P : UpstreamObservation F → Type 0) (counts : List (String × ℕ)) (seen : List String)
      → All (λ c. P (silent fl c)) counts
      → All P (map (silent fl) (unseen seen counts))
  silent-All P [] seen h = tt
  silent-All P (c ∷ cs) seen h = ground (arith, silent-All P cs seen h.1)

  silent-IsApart :
      (counts : List (String × ℕ)) (seen : List String)
      → IsApart same_entry counts
      → IsApart same_identity (map (silent fl) (unseen seen counts))
  silent-IsApart [] seen h = tt
  silent-IsApart (c ∷ cs) seen h = elim (Bool-cases (contains seen c.0)) [
    | inl met ↦ rw met (silent-IsApart cs seen h.1)
    | inr new ↦ rw new (
      silent-All (λ u. same_identity (silent fl c) u ≡ false) cs seen h.0,
      silent-IsApart cs seen h.1,
    )
  ]

  any-silent :
      (id : String) (counts : List (String × ℕ)) (seen : List String)
      → any (λ u. UpstreamObservation.identity u == id) (map (silent fl) (unseen seen counts))
        ≡ (is_some (lookup id counts) && not (contains seen id))
  unfolding lookup
  any-silent id [] seen = refl
  any-silent id (c ∷ cs) seen = elim (Bool-cases (c.0 == id)) [
    | inl same ↦
        (let k : contains seen c.0 ≡ contains seen id =
            ap (contains seen) ((eq_iff c.0 id).0 same) in
          ground (arith, k, any-silent id cs seen))
    | inr other ↦ ground (arith, any-silent id cs seen)
  ]

  -- What is so of the upstreams before they are sorted.
  abbrev IsJoined : Bool → List (List (String × ℕ)) → List (UpstreamObservation F) → Type 0
  IsJoined truncated responses us =
      IsApart same_identity us
      × All (IsCounted truncated (λ id. reported id responses)) us
      × ((id : String)
          → (truncated || not (is_some (reported id responses)) || any (λ u. u.identity == id) us)
            ≡ true)

  append-IsJoined :
      (truncated : Bool) (responses : List (List (String × ℕ))) (counts : List (String × ℕ))
      (out : List (UpstreamObservation F) × List String)
      → IsApart same_entry counts
      → ((id : String) → lookup id counts ≡ reported id responses)
      → IsCollected fl truncated counts [] out
      → IsJoined truncated responses (out.0 ++ added truncated out.1 counts)
  append-IsJoined true responses counts out keys known (_, apart, counted, met) = (
    IsApart-append same_identity out.0 [] apart tt tt,
    All-append _ out.0 [] (All-imp (λ u c. ground arith) out.0 counted) tt,
    λ id. ground arith,
  )
  append-IsJoined false responses counts out keys known (_, apart, counted, met) =
      let late = map (silent fl) (unseen out.1 counts) in
      (
        IsApart-append same_identity out.0 late apart (silent-IsApart counts out.1 keys)
            (All-imp (λ u f. ground (arith, met u.identity)) late (silent-fresh counts out.1)),
        All-append (IsCounted false (λ id. reported id responses)) out.0 late
            (All-imp (λ u c. (c.0 ∙ known u.identity, c.1)) out.0 counted)
            (silent-All (IsCounted false (λ id. reported id responses)) counts out.1
              (All-imp (λ c f. (sym f ∙ known c.0, refl)) counts (lookup-apart counts keys))),
        λ id. ground (
          arith,
          any-append (λ u. UpstreamObservation.identity u == id) out.0 late,
          any-silent id counts out.1,
          met id,
          known id,
        ),
      )

  -- Accepted upstreams come in the order of their identities, each once; the count of one is the
  -- count that the server reported for it, and is unknown exactly where the list of the server may be
  -- truncated; where it is complete, no upstream that it counts is missing.
  pub normalize_upstreams-ok :
      (averages : List (List (String × F))) (responses : List (List (String × ℕ)))
      (us : List (UpstreamObservation F))
      → normalize_upstreams fl averages responses ≡ ok us
      → IsAscending by_identity us
        × IsApart same_identity us
        × All
            (IsCounted (leb upstream_list_limit (length responses)) (λ id. reported id responses))
            us
        × ((id : String)
            → (leb upstream_list_limit (length responses)
                || not (is_some (reported id responses))
                || any (λ u. u.identity == id) us)
              ≡ true)
  unfolding normalize_upstreams
  normalize_upstreams-ok averages responses us h =
      let truncated = leb upstream_list_limit (length responses) in
      let (counts, counted, next) = >>=-ok (collect_counts [] responses) _ us h in
      let (collected, found, e) =
        >>=-ok (collect_averages fl truncated counts [] averages) _ us next in
      let (keys, lookups) = collect_counts-ok [] responses counts tt counted in
      let loose = collected.0 ++ added truncated collected.1 counts in
      let (apart, known, whole) =
        append-IsJoined truncated responses counts collected keys (λ id. ground (arith, lookups id))
          (collect_averages-ok fl truncated counts [] averages collected found) in
      subst
        (λ os.
          IsAscending by_identity os
          × IsApart same_identity os
          × All (IsCounted truncated (λ id. reported id responses)) os
          × ((id : String)
              → (truncated
                  || not (is_some (reported id responses))
                  || any (λ u. u.identity == id) os)
                ≡ true))
        (ok-injective (sort_with by_identity loose) us e)
        (
          sort_with-IsAscending by_identity (λ a b. str_leb_total a.identity b.identity) loose,
          sort_with-IsApart same_identity by_identity same_identity_symm loose apart,
          sort_with-All by_identity _ loose known,
          λ id. ground (
            arith,
            any-sort_with (λ u. UpstreamObservation.identity u == id) by_identity loose,
            whole id,
          ),
        )
