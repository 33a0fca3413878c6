-- ===== src/Adguard/Filters.antt =====
-- What the normalized filters of a target are.
use adguard_sentinel.Base.{
  ◌≡◌, refl, String, Option, none, some, Bool, true, false, not, ◌&&◌, ◌||◌, List, [], ◌∷◌, map,
  arith, ◌==◌, eq_iff, is_some, contains, filter_by, All, All-imp, sort_with, Bool-cases, inl, inr,
  subst, ap, ◌∙◌, Option-cases,
}
use mathlib.Core.List.{Perm}
use adguard_sentinel.Base.Order.{
  IsAscending, IsApart, str_leb_total, sort_with-IsAscending, sort_with-All, sort_with-IsApart,
  sort_with-perm,
}
use adguard_sentinel.Base.Int.{ℤ, pos, leb_ℤ, ltb_ℤ, saturating_add_i64}
use adguard_sentinel.Base.Result.{ok, ok-injective, >>=-ok}
use adguard_sentinel.Base.Chars.{is_empty_text, trim}
use adguard_sentinel.Config.Types.{PolicyConfig}
use adguard_sentinel.Model.Observation.{FilterObservation}
use adguard_sentinel.Adguard.Types.{FilterResponse}
use adguard_sentinel.Adguard.Lists.{
  invalid, required_urls, by_url, updated_seconds, observe_filter, filter_loop, normalize_filters,
}

-- An enabled filter has the time of its last update, and that time is not past the tolerance.
abbrev pub is_dated : ℤ → FilterObservation → Bool
is_dated now o =
    (not o.enabled || is_some o.last_updated_unix_seconds) && elim o.last_updated_unix_seconds [
      | none ↦ true
      | some s ↦ leb_ℤ s (saturating_add_i64 now (pos 300))
    ]

abbrev pub same_url : FilterObservation → FilterObservation → Bool
same_url a b = a.url == b.url

same_url_symm : (a b : FilterObservation) → same_url a b ≡ false → same_url b a ≡ false
same_url_symm a b h = ground (arith, eq_iff a.url b.url, eq_iff b.url a.url)

not_later : (limit seconds : ℤ) → ltb_ℤ limit seconds ≡ false → leb_ℤ seconds limit ≡ true
not_later limit seconds h = ground arith

module _ (parse_seconds : String → Option ℤ) where
  -- What the server says of a filter, with the time that its text of the last update stands for.
  abbrev pub reported_filter : FilterResponse → FilterObservation
  reported_filter f = record {
    url = f.url;
    server_id = f.id;
    enabled = f.enabled;
    rules_count = f.rules_count;
    last_updated = f.last_updated;
    last_updated_unix_seconds = elim f.last_updated [
      | none ↦ none
      | some text ↦ parse_seconds text
    ];
  }

module _ (parse_seconds : String → Option ℤ) (now : ℤ) where
  updated_seconds-ok :
      (text : Option String) (seconds : Option ℤ)
      → updated_seconds parse_seconds now text ≡ ok seconds
      → ((elim seconds [ none ↦ true | some s ↦ leb_ℤ s (saturating_add_i64 now (pos 300)) ])
          ≡ true)
        × (seconds ≡ (elim text [ none ↦ none | some value ↦ parse_seconds value ]))
  unfolding updated_seconds invalid
  updated_seconds-ok none seconds h = ground arith
  updated_seconds-ok (some value) seconds h = elim (Option-cases (parse_seconds value)) [
    | inl e ↦ ground (arith, e)
    | inr (s, e) ↦ ground (arith, e)
  ]

  observe_filter-ok :
      (filter : FilterResponse) (o : FilterObservation)
      → observe_filter parse_seconds now filter ≡ ok o
      → (o ≡ reported_filter parse_seconds filter) × (is_dated now o ≡ true)
  unfolding observe_filter invalid
  observe_filter-ok filter o h =
      let (seconds, found, _) =
        >>=-ok (updated_seconds parse_seconds now filter.last_updated) _ o h in
      let (due, same) = updated_seconds-ok filter.last_updated seconds found in
      ground (arith, found, due, same)

  -- What the loop has found out of the filters that it kept.
  abbrev IsKept : List String → List String → List FilterResponse → List FilterObservation → Type 0
  IsKept required seen filters kept =
      (kept
        ≡ map (reported_filter parse_seconds) (filter_by (λ f. contains required f.url) filters))
      × All (λ o. is_dated now o ≡ true) kept
      × IsApart same_url kept
      × All (λ o. contains seen o.url ≡ false) kept

  filter_loop-ok :
      (required seen : List String) (filters : List FilterResponse) (kept : List FilterObservation)
      → filter_loop parse_seconds now required seen filters ≡ ok kept
      → IsKept required seen filters kept
  unfolding filter_loop invalid
  filter_loop-ok required seen [] kept h =
      subst (IsKept required seen []) (ok-injective [] kept h) (refl, tt, tt, tt)
  filter_loop-ok required seen (filter ∷ filters) kept h =
      let clear : (is_empty_text (trim filter.url) || contains seen filter.url) ≡ false =
        ground arith in
      elim (Bool-cases (contains required filter.url)) [
        | inr skip ↦
            (let (urls, dated, apart, fresh) =
                filter_loop-ok required (filter.url ∷ seen) filters kept (rw (clear, skip) at h) in
              rw skip (urls, dated, apart, All-imp (λ o f. ground arith) kept fresh))
        | inl keep ↦
            (let (o, observed, next) =
                >>=-ok (observe_filter parse_seconds now filter) _ kept (rw (clear, keep) at h) in
              let (rest, found, e) =
                >>=-ok (filter_loop parse_seconds now required (filter.url ∷ seen) filters) _ kept
                  next in
              let (urls, dated, apart, fresh) =
                filter_loop-ok required (filter.url ∷ seen) filters rest found in
              let (same, due) = observe_filter-ok filter o observed in
              let named : o.url ≡ filter.url = ap (λ x. FilterObservation.url x) same in
              subst (IsKept required seen (filter ∷ filters)) (ok-injective (o ∷ rest) kept e) (
                rw keep (
                    ap (λ x. x ∷ rest) same
                    ∙ ap (λ x. reported_filter parse_seconds filter ∷ x) urls),
                (due, dated),
                (
                  All-imp (λ o' f. ground (arith, eq_iff o.url o'.url, eq_iff filter.url o'.url))
                      rest fresh,
                  apart,
                ),
                (ground arith, All-imp (λ o' f. ground arith) rest fresh),
              ))
      ]

  -- The filters that are accepted are exactly those of the target that the policy requires, as the
  -- server reports them, in the order of their URLs and each once; an enabled one has the time of
  -- its last update, and no time is more than 300 seconds ahead.
  pub normalize_filters-ok :
      (filters : List FilterResponse) (policy : Option PolicyConfig) (kept : List FilterObservation)
      → normalize_filters parse_seconds now filters policy ≡ ok kept
      → Perm kept (
          map
            (reported_filter parse_seconds)
            (filter_by (λ f. contains (required_urls policy) f.url) filters))
        × All (λ o. is_dated now o ≡ true) kept
        × IsApart same_url kept
        × IsAscending by_url kept
  unfolding normalize_filters
  normalize_filters-ok filters policy kept h =
      let (loose, found, e) =
        >>=-ok (filter_loop parse_seconds now (required_urls policy) [] filters) _ kept h in
      let (reported, dated, apart, _) =
        filter_loop-ok (required_urls policy) [] filters loose found in
      subst
        (λ os.
          Perm os (
            map (reported_filter parse_seconds)
              (filter_by (λ f. contains (required_urls policy) f.url) filters))
          × All (λ o. is_dated now o ≡ true) os
          × IsApart same_url os
          × IsAscending by_url os)
        (ok-injective (sort_with by_url loose) kept e)
        (
          subst (Perm (sort_with by_url loose)) reported (sort_with-perm by_url loose),
          sort_with-All by_url (λ o. is_dated now o ≡ true) loose dated,
          sort_with-IsApart same_url by_url same_url_symm loose apart,
          sort_with-IsAscending by_url (λ a b. str_leb_total a.url b.url) loose,
        )
