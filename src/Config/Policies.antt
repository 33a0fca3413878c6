-- ===== src/Config/Policies.antt =====
-- `validate_policies` (crates/sentinel-core/src/config.rs). A set of what was met is a list.
use adguard_sentinel.Base.{
  ℕ, ◌<◌, ◌≡◌, String, Option, none, some, Bool, true, false, not, ◌&&◌, ◌||◌, List, [], ◌∷◌, ◌++◌,
  arith, eqb, if◌then◌else◌, All, any, is_empty, is_none, is_some, contains, ◌==◌, unwrap_or,
}
use adguard_sentinel.Base.Chars.{trim, is_empty_text}
use adguard_sentinel.Config.Types.{PolicyConfig, RequiredFilter, RequiredRewrite, RequiredRewrites}
use adguard_sentinel.Config.Names.{valid_id, normalize_dns_name, normalize_rewrite_answer}
use adguard_sentinel.Config.Platform.{
  Platform, format, error_if, joined, joined-nil, append-nil_iff, concat_map,
}

-- Whether a text occurs twice.
abbrev pub has_repeat : List String → Bool
has_repeat [] = false
has_repeat (s ∷ ss) = contains ss s || has_repeat ss

abbrev is_blank : Option String → Bool
is_blank none = false
is_blank (some s) = is_empty_text (trim s)

abbrev bad_upstreams : Option (List String) → Bool
bad_upstreams none = false
bad_upstreams (some us) = is_empty us || has_repeat us || any (λ u. is_empty_text (trim u)) us

abbrev is_zero_or_none : Option ℕ → Bool
is_zero_or_none none = true
is_zero_or_none (some hours) = eqb hours 0

abbrev contains_key : List (String × String) → String × String → Bool
contains_key keys key = any (λ k. (k.0 == key.0) && (k.1 == key.1)) keys

-- A filter whose age can be judged: exactly the enabled ones declare a positive age.
pub HasAge : RequiredFilter → Type 0
HasAge f =
    (f.enabled ≡ true → 0 < unwrap_or f.maximum_age_hours 0)
    × (f.enabled ≡ false → f.maximum_age_hours ≡ none)

module _ (platform : Platform) where
  open platform use {debug, parse_url, canonical_ip}

  abbrev age_errors : String → RequiredFilter → List String
  age_errors id filter =
      error_if (filter.enabled && is_zero_or_none filter.maximum_age_hours) (
        format (
          "policy "
          ∷ debug id
          ∷ " enabled filter "
          ∷ filter.url
          ∷ " requires positive maximum_age_hours"
          ∷ []))
      ++ error_if (not filter.enabled && is_some filter.maximum_age_hours) (
          format (
            "policy "
            ∷ debug id
            ∷ " disabled filter "
            ∷ filter.url
            ∷ " must omit maximum_age_hours"
            ∷ []))

  -- The body of the loop over the filters, and the errors of those that follow.
  abbrev filter_errors : String → List String → RequiredFilter → List String → List (List String)
  filter_errors id urls f rest =
      error_if (is_none (parse_url f.url) || contains urls f.url) (
        format
          ("policy " ∷ debug id ∷ " has an invalid or duplicate filter URL " ∷ debug f.url ∷ []))
      ∷ age_errors id f
      ∷ rest
      ∷ []

  -- `||` does not insert a URL that does not parse.
  unfoldable pub validate_filters : String → List String → List RequiredFilter → List String
  unfolding joined
  validate_filters id urls [] = []
  validate_filters id urls (f ∷ fs) =
      let urls' =
        if is_none (parse_url (RequiredFilter.url f)) then urls else RequiredFilter.url f ∷ urls in
      let rest = validate_filters id urls' fs in joined (filter_errors id urls f rest)

  unfoldable pub validate_rewrites :
      String → List (String × String) → List RequiredRewrite → List String
  unfolding normalize_dns_name normalize_rewrite_answer
  validate_rewrites id keys [] = []
  validate_rewrites id keys (r ∷ rs) =
      let key : String × String = (
        normalize_dns_name (RequiredRewrite.domain r),
        normalize_rewrite_answer canonical_ip (RequiredRewrite.answer r),
      ) in
      let unnamed = is_empty_text key.0 || is_empty_text key.1 in
      let rest = validate_rewrites id (if unnamed then keys else key ∷ keys) rs in
      error_if (unnamed || contains_key keys key) (
        format (
          "policy "
          ∷ debug id
          ∷ " has an invalid or duplicate rewrite "
          ∷ debug (RequiredRewrite.domain r)
          ∷ " -> "
          ∷ debug (RequiredRewrite.answer r)
          ∷ []))
      ++ rest

  abbrev policy_errors : String → PolicyConfig → List (List String)
  policy_errors id policy =
      error_if (not (valid_id id)) (format ("policy id " ∷ debug id ∷ " is not a stable slug" ∷ []))
      ∷ error_if (is_blank policy.upstream_mode)
          (format ("policy " ∷ debug id ∷ " upstream_mode must not be empty" ∷ []))
      ∷ error_if (bad_upstreams policy.upstream_dns)
          (format ("policy " ∷ debug id ∷ " upstream_dns must be unique and nonempty" ∷ []))
      ∷ validate_filters id [] policy.filters
      ∷ validate_rewrites id [] (RequiredRewrites.required policy.rewrites)
      ∷ []

  unfoldable pub validate_policy : String × PolicyConfig → List String
  unfolding validate_filters validate_rewrites joined
  validate_policy (id, policy) = joined (policy_errors id policy)

  unfoldable pub validate_policies : List (String × PolicyConfig) → List String
  unfolding validate_policy
  validate_policies policies = concat_map validate_policy policies

  age_errors-nil : (id : String) (f : RequiredFilter) → age_errors id f ≡ [] → HasAge f
  unfolding HasAge
  age_errors-nil id f h = ground arith

  validate_filters-nil :
      (id : String) (fs : List RequiredFilter) (urls : List String)
      → validate_filters id urls fs ≡ []
      → All HasAge fs
  unfolding validate_filters
  validate_filters-nil id [] urls h = tt
  validate_filters-nil id (f ∷ fs) urls h =
      let (url, (age, (rest, end))) = joined-nil (filter_errors id urls f _) h in
      (age_errors-nil id f age, validate_filters-nil id fs _ rest)

  -- Accepted policies ask for no filter whose age cannot be judged: an enabled filter declares a
  -- positive age, so the default of zero is never used, and a disabled one declares none.
  pub validate_policies-nil :
      (policies : List (String × PolicyConfig))
      → validate_policies policies ≡ []
      → All (λ p. All HasAge (PolicyConfig.filters p.1)) policies
  unfolding validate_policies validate_policy
  validate_policies-nil [] h = tt
  validate_policies-nil ((id, policy) ∷ policies) h =
      let parts =
        (append-nil_iff (validate_policy (id, policy)) (validate_policies policies)).0 h in
      let (slug, (mode, (upstreams, (filters, end)))) =
        joined-nil (policy_errors id policy) parts.0 in
      (validate_filters-nil id policy.filters [] filters, validate_policies-nil policies parts.1)
