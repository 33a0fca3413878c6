-- ===== src/Config/Accepted.antt =====
-- What the rest of the program may rely on in an accepted configuration: `Config::validate`
-- (crates/sentinel-core/src/config.rs).
use adguard_sentinel.Base.{
  ◌≤◌, ◌<◌, ◌≡◌, String, Bool, true, false, not, List, [], ◌∷◌, map, subst, if◌then◌else◌, arith,
  All, contains, eq_iff, length, none, some, lookup, is_some, Option-cases, inl, inr,
}
use adguard_sentinel.Config.Types.{
  BehavioralBaselineConfig, Config, StateConfig, ObservationConfig, TargetConfig, PolicyConfig,
}
use adguard_sentinel.Config.Names.{valid_id}
use adguard_sentinel.Config.Platform.{Platform, joined-nil, append-nil_iff}
use adguard_sentinel.Config.Profiles.{IsSlug, IsSound, valid_id-IsSlug, validate_profiles-nil}
use adguard_sentinel.Config.Policies.{HasAge, has_repeat, validate_policies-nil}
use adguard_sentinel.Config.Targets.{
  validate_each, target_errors, validate_references, unknown_policy, unknown_profile,
}
use adguard_sentinel.Config.Validate.{
  validate, validate_targets, validate_baseline, config_errors, count_errors, retention_errors,
}

-- What a target refers to is declared, and its id is a stable slug.
pub IsKnown : Config → TargetConfig → Type 0
IsKnown config t =
    IsSlug t.id
    × (elim t.policy [
      | none ↦ Unit {0}
      | some policy ↦ is_some (lookup policy config.policies) ≡ true
    ])
    × (is_some (lookup t.condition_profile config.condition_profiles) ≡ true)

abbrev pub ids_of : List TargetConfig → List String
ids_of = map (λ t. TargetConfig.id t)

-- A list that has none of `x ∷ xs` has not `x`.
not_met :
    (x : String) (xs : List String) (ts : List TargetConfig)
    → All (λ t. contains (x ∷ xs) (TargetConfig.id t) ≡ false) ts
    → (contains (ids_of ts) x ≡ false) × All (λ t. contains xs (TargetConfig.id t) ≡ false) ts
not_met x xs [] h = ground arith
not_met x xs (t ∷ ts) h = ground (arith, h, not_met x xs ts h.1, eq_iff x t.id, eq_iff t.id x)

-- State is kept for as long as the baseline learns, if there is a baseline.
abbrev pub IsRetained : Config → Type 0
IsRetained config = elim config.behavioral_baseline [
  | none ↦ Unit {0}
  | some baseline ↦
      BehavioralBaselineConfig.learning_days baseline ≤ StateConfig.retention_days config.state
]

-- What an accepted configuration guarantees: sound profiles, filters whose age can be judged,
-- targets with distinct ids that refer only to what is declared, no more complete targets
-- demanded than there are and at least one, and state kept for as long as the baseline learns.
pub IsAccepted : Config → Type 0
IsAccepted config =
    All (IsSound) config.condition_profiles
    × All (λ p. All HasAge (PolicyConfig.filters p.1)) config.policies
    × (has_repeat (ids_of config.targets) ≡ false)
    × All (IsKnown config) config.targets
    × (0 < ObservationConfig.minimum_complete_targets config.observation)
    × (ObservationConfig.minimum_complete_targets config.observation ≤ length config.targets)
    × (0 < StateConfig.retention_days config.state)
    × IsRetained config

count_errors-nil :
    (config : Config)
    → count_errors config ≡ []
    → (0 < ObservationConfig.minimum_complete_targets config.observation)
      × (ObservationConfig.minimum_complete_targets config.observation ≤ length config.targets)
count_errors-nil config h = ground arith

retention_errors-nil :
    (config : Config)
    → retention_errors config ≡ []
    → (0 < StateConfig.retention_days config.state) × IsRetained config
retention_errors-nil config h = elim (Option-cases config.behavioral_baseline) [
  | inl e ↦ (ground arith, rw e tt)
  | inr (baseline, e) ↦ (ground arith, rw e (ground arith))
]

references-IsKnown :
    (config : Config) (t : TargetConfig)
    → valid_id t.id ≡ true
    → unknown_policy config t ≡ false
    → unknown_profile config t ≡ false
    → IsKnown config t
unfolding IsKnown
references-IsKnown config t slug policy profile = elim (Option-cases t.policy) [
  | inl e ↦ ((valid_id-IsSlug t.id).0 slug, rw e tt, ground arith)
  | inr (p, e) ↦ ((valid_id-IsSlug t.id).0 slug, rw e (ground arith), ground arith)
]

module _ (platform : Platform) (config : Config) (check : Bool) where
  validate_references-nil :
      (t : TargetConfig)
      → validate_references platform config t ≡ []
      → (unknown_policy config t ≡ false) × (unknown_profile config t ≡ false)
  unfolding validate_references
  validate_references-nil t h = ground arith

  validate_each-nil :
      (ts : List TargetConfig) (ids names : List String)
      → validate_each platform config check ids names ts ≡ []
      → (has_repeat (ids_of ts) ≡ false)
        × All (λ t. contains ids (TargetConfig.id t) ≡ false) ts
        × All (IsKnown config) ts
  unfolding validate_each
  validate_each-nil [] ids names h = ground arith
  validate_each-nil (t ∷ ts) ids names h =
      let (id, (name, (auth, (references, (url, (rest, end)))))) =
        joined-nil (target_errors platform config check ids names t _) h in
      let (distinct, unmet, known) = validate_each-nil ts _ _ rest in
      let known_here = validate_references-nil t references in
      let own : (valid_id t.id ≡ true) × (contains ids t.id ≡ false) = ground (arith, id) in
      let met = not_met t.id ids ts (
        subst
          (λ b.
            All (λ u. contains (if not b then ids else t.id ∷ ids) (TargetConfig.id u) ≡ false) ts)
          own.0 unmet) in
      (
        ground (arith, met.0, distinct),
        (own.1, met.1),
        (references-IsKnown config t own.0 known_here.0 known_here.1, known),
      )

  -- A configuration that validates without errors is accepted in this sense.
  pub validate-IsAccepted : validate platform config check ≡ [] → IsAccepted config
  unfolding validate validate_targets IsAccepted
  validate-IsAccepted h =
      let (
        version,
        (
          path,
          (
            retention,
            (
              request,
              (counts, (requirement, (comparison, (profiles, (policies, (targets, end)))))),
            ),
          ),
        ),
      ) =
        joined-nil (config_errors platform config check) h in
      let sound = (validate_profiles-nil platform config.condition_profiles).0 profiles in
      let each =
        (append-nil_iff (validate_each platform config check [] [] config.targets)
            (validate_baseline platform config config.behavioral_baseline)).0
          targets in
      let known = validate_each-nil config.targets [] [] each.0 in
      (
        sound.1,
        validate_policies-nil platform config.policies policies,
        known.0,
        known.2,
        (count_errors-nil config counts).0,
        (count_errors-nil config counts).1,
        (retention_errors-nil config retention).0,
        (retention_errors-nil config retention).1,
      )
