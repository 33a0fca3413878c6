-- ===== src/Adguard/Lists.antt =====
-- `normalize_dns`, `normalize_filters` and `normalize_rewrites`.
use adguard_sentinel.Base.{
  String, Option, none, some, Bool, false, not, ◌&&◌, ◌||◌, List, [], ◌∷◌, map, if◌then◌else◌, ◌==◌,
  str_leb, is_none, is_empty, any, contains, sort_with,
}
use adguard_sentinel.Base.Int.{ℤ, pos, ltb_ℤ, saturating_add_i64}
use adguard_sentinel.Base.Chars.{is_empty_text, trim}
use adguard_sentinel.Base.Result.{Result, ok, err, ◌>>=◌}
use adguard_sentinel.Config.Types.{PolicyConfig}
use adguard_sentinel.Config.Names.{normalize_dns_name, normalize_rewrite_answer}
use adguard_sentinel.Model.Observation.{DnsObservation, FilterObservation, RewriteObservation}
use adguard_sentinel.Adguard.Types.{
  AdGuardError, Endpoint, label, DnsResponse, FilterResponse, RewriteResponse,
}

-- A set of the values has as many as there are.
abbrev pub has_duplicate : List String → Bool
has_duplicate [] = false
has_duplicate (s ∷ rest) = contains rest s || has_duplicate rest

-- `Err(AdGuardError::InvalidResponse { ... })` of an endpoint.
unfoldable pub invalid {ℓ} : {A : Type ℓ} → Endpoint → String → Result AdGuardError A
unfolding label
invalid endpoint detail = err (AdGuardError.invalid_response (label endpoint) detail)

unfoldable pub upstream_mode_of : String → Result AdGuardError String
unfolding invalid trim
upstream_mode_of mode =
    if is_empty_text mode
    then ok "load_balance"
    else if is_empty_text (trim mode)
    then invalid Endpoint.dns_info "upstream mode must not contain only whitespace"
    else ok mode

unfoldable pub normalize_dns : DnsResponse → Result AdGuardError DnsObservation
unfolding upstream_mode_of invalid trim
normalize_dns dns = do
  mode ← upstream_mode_of dns.upstream_mode
  if is_empty dns.upstream_dns
      then invalid Endpoint.dns_info "upstream set must be nonempty"
      else if has_duplicate dns.upstream_dns
          || any (λ value. is_empty_text (trim value)) dns.upstream_dns
      then invalid Endpoint.dns_info "upstream set contains empty or duplicate values"
      else ok (record { upstream_mode = mode; upstream_dns = dns.upstream_dns })

-- The URLs that the policy requires.
abbrev pub required_urls : Option PolicyConfig → List String
required_urls none = []
required_urls (some policy) = map (λ f. f.url) policy.filters

abbrev pub by_url : FilterObservation → FilterObservation → Bool
by_url a b = str_leb a.url b.url

-- `str::parse::<Timestamp>` followed by `as_second` is the parameter `parse_seconds`.
module _ (parse_seconds : String → Option ℤ) (now : ℤ) where
  unfoldable pub updated_seconds : Option String → Result AdGuardError (Option ℤ)
  unfolding invalid
  updated_seconds none = ok none
  updated_seconds (some value) = elim (parse_seconds value) [
    | none ↦ invalid Endpoint.filtering_status "required filter last_updated is not RFC3339"
    | some seconds ↦
        if ltb_ℤ (saturating_add_i64 now (pos 300)) seconds
        then invalid Endpoint.filtering_status "required filter last_updated is in the future"
        else ok (some seconds)
  ]

  -- The observation of a required filter.
  unfoldable pub observe_filter : FilterResponse → Result AdGuardError FilterObservation
  unfolding updated_seconds invalid
  observe_filter filter = do
    seconds ← updated_seconds (FilterResponse.last_updated filter)
    if filter.enabled && is_none seconds
        then invalid Endpoint.filtering_status "enabled required filter has no last_updated value"
        else ok (record {
          url = filter.url;
          server_id = filter.id;
          enabled = filter.enabled;
          rules_count = filter.rules_count;
          last_updated = filter.last_updated;
          last_updated_unix_seconds = seconds;
        })

  unfoldable pub filter_loop :
      List String → List String → List FilterResponse → Result AdGuardError (List FilterObservation)
  unfolding observe_filter invalid trim
  filter_loop required seen [] = ok []
  filter_loop required seen (filter ∷ filters) =
      let rest = filter_loop required (filter.url ∷ seen) filters in
      if is_empty_text (trim filter.url) || contains seen filter.url
      then invalid Endpoint.filtering_status "filter list contains an empty or duplicate URL"
      else if not (contains required filter.url)
      then rest
      else (do
        observation ← observe_filter filter
        observations ← rest
        ok (observation ∷ observations))

  unfoldable pub normalize_filters :
      List FilterResponse → Option PolicyConfig → Result AdGuardError (List FilterObservation)
  unfolding filter_loop
  normalize_filters filters policy = do
    observations ← filter_loop (required_urls policy) [] filters
    ok (sort_with by_url observations)

-- The derived order of pairs.
abbrev pub by_rewrite : RewriteObservation → RewriteObservation → Bool
by_rewrite a b =
    if a.domain == b.domain then str_leb a.answer b.answer else str_leb a.domain b.domain

abbrev pub same_rewrite : String → String → RewriteObservation → Bool
same_rewrite domain answer r = (r.domain == domain) && (r.answer == answer)

-- `canonical_ip` is the parsing and printing of an IP address.
module _ (canonical_ip : String → Option String) where
  unfoldable pub normalize_rewrite : RewriteResponse → RewriteObservation
  unfolding normalize_dns_name normalize_rewrite_answer
  normalize_rewrite r = record {
    domain = normalize_dns_name r.domain;
    answer = normalize_rewrite_answer canonical_ip r.answer;
    enabled = r.enabled;
  }

  -- The loop; `seen` are the entries before, by their normalized keys.
  unfoldable pub rewrite_loop :
      List RewriteObservation → List RewriteResponse → Result AdGuardError (List RewriteObservation)
  unfolding normalize_rewrite invalid
  rewrite_loop seen [] = ok []
  rewrite_loop seen (rewrite ∷ rewrites) =
      let r = normalize_rewrite rewrite in
      let rest = rewrite_loop (r ∷ seen) rewrites in
      if is_empty_text r.domain
        || is_empty_text r.answer
        || any (same_rewrite r.domain r.answer) seen
      then invalid Endpoint.rewrite_list
          "rewrite list contains empty or duplicate normalized entries"
      else (do observations ← rest; ok (r ∷ observations))

  unfoldable pub normalize_rewrites :
      List RewriteResponse → Result AdGuardError (List RewriteObservation)
  unfolding rewrite_loop
  normalize_rewrites rewrites = do
    observations ← rewrite_loop [] rewrites
    ok (sort_with by_rewrite observations)
