-- ===== src/Config/Validate.antt =====
-- `validate_targets` as a whole and `Config::validate` (crates/sentinel-core/src/config.rs).
use adguard_sentinel.Base.{
  ℕ, ◌%◌, String, Option, none, some, Bool, not, ◌&&◌, ◌||◌, List, [], ◌∷◌, ◌++◌, map, ltb, eqb,
  if◌then◌else◌, is_empty, contains, ◌==◌, filter_by, length, set_of,
}
use adguard_sentinel.Base.Chars.{trim, is_empty_text, decimal}
use adguard_sentinel.Config.Types.{
  Config, StateConfig, ObservationConfig, TargetConfig, BehavioralBaselineConfig,
  supported_adguard_requirement,
}
use adguard_sentinel.Config.Platform.{Platform, format, error_if, joined, concat_map}
use adguard_sentinel.Config.Profiles.{validate_range, validate_profiles}
use adguard_sentinel.Config.Policies.{validate_policies}
use adguard_sentinel.Config.Targets.{validate_each, validate_notifications, validate_absolute_path}

abbrev config_version : ℕ
config_version = 1

abbrev max_targets : ℕ
max_targets = 64

abbrev max_response_bytes : ℕ
max_response_bytes = 16777216

abbrev ids_of : List TargetConfig → List String
ids_of = map (λ t. TargetConfig.id t)

-- The profiles that the members of the baseline use, each once.
abbrev baseline_profiles : Config → BehavioralBaselineConfig → List String
baseline_profiles config baseline = set_of (
    map (λ t. TargetConfig.condition_profile t)
      (filter_by (λ t. contains (BehavioralBaselineConfig.target_ids baseline) (TargetConfig.id t))
        config.targets))

unfoldable pub uses_untested_adguard_version : Config → Bool
uses_untested_adguard_version config = not (
    ObservationConfig.adguard_version_requirement config.observation
    == supported_adguard_requirement)

abbrev pub retention_errors : Config → List String
retention_errors config =
    error_if (eqb (StateConfig.retention_days config.state) 0)
      "state.retention_days must be positive"
    ++ (elim config.behavioral_baseline [
      | none ↦ []
      | some baseline ↦
          error_if
            (ltb (StateConfig.retention_days config.state)
              (BehavioralBaselineConfig.learning_days baseline))
            "state.retention_days must be at least behavioral_baseline.learning_days"
    ])

abbrev pub count_errors : Config → List String
count_errors config =
    let targets = length config.targets in
    error_if (is_empty config.targets || ltb max_targets targets)
      (format ("targets must contain between 1 and " ∷ decimal max_targets ∷ " entries" ∷ []))
    ++ (error_if
          (eqb (ObservationConfig.target_concurrency config.observation) 0
            || ltb max_targets (ObservationConfig.target_concurrency config.observation))
          (format
            ("observation.target_concurrency must be between 1 and " ∷ decimal max_targets ∷ []))
        ++ error_if
            (eqb (ObservationConfig.minimum_complete_targets config.observation) 0
              || ltb targets (ObservationConfig.minimum_complete_targets config.observation))
            "observation.minimum_complete_targets must be between 1 and target count")

module _ (platform : Platform) where
  open platform use {debug, is_requirement}

  abbrev repeat_errors : List String → List String → List String
  repeat_errors seen [] = []
  repeat_errors seen (id ∷ ids) =
      error_if (contains seen id)
        (format ("behavioral_baseline.target_ids repeats target " ∷ debug id ∷ []))
      ++ repeat_errors (id ∷ seen) ids

  abbrev unknown_errors : List String → List String → List String
  unknown_errors configured ids =
      concat_map
        (λ id.
          error_if (not (contains configured id))
            (format ("behavioral_baseline.target_ids references unknown target " ∷ debug id ∷ [])))
        ids

  unfoldable pub validate_baseline : Config → Option BehavioralBaselineConfig → List String
  validate_baseline config none = []
  validate_baseline config (some baseline) =
      error_if (is_empty baseline.target_ids) "behavioral_baseline.target_ids must not be empty"
      ++ (repeat_errors [] baseline.target_ids
          ++ (unknown_errors (ids_of config.targets) (set_of baseline.target_ids)
              ++ error_if (ltb 1 (length (baseline_profiles config baseline)))
                  "behavioral_baseline targets must share one condition profile"))

  unfoldable pub validate_targets : Config → Bool → List String
  unfolding validate_each validate_baseline
  validate_targets config check =
      validate_each platform config check [] [] config.targets
      ++ validate_baseline config config.behavioral_baseline

  abbrev request_errors : ObservationConfig → List String
  request_errors o =
      validate_range "observation.request_timeout_ms" o.request_timeout_ms 1 60000
      ++ (validate_range "observation.notification_timeout_ms" o.notification_timeout_ms 1 60000
          ++ (validate_range "observation.max_response_bytes" o.max_response_bytes 1024
                max_response_bytes
              ++ error_if (eqb o.stats_lookback_ms 0 || not (eqb (o.stats_lookback_ms % 3600000) 0))
                  "observation.stats_lookback_ms must be a positive whole-hour multiple"))

  abbrev version_errors : Config → List String
  version_errors config =
      let requirement = ObservationConfig.adguard_version_requirement config.observation in
      if not (is_requirement requirement)
      then "observation.adguard_version_requirement is not a semver requirement" ∷ []
      else error_if
          (uses_untested_adguard_version config
            && not (ObservationConfig.allow_untested_adguard_version config.observation))
          (format (
            "observation.adguard_version_requirement is "
            ∷ debug requirement
            ∷ ", but only "
            ∷ debug supported_adguard_requirement
            ∷ " has recorded evidence; set observation.allow_untested_adguard_version = true to accept an untested range"
            ∷ []))

  abbrev comparison_errors : Option BehavioralBaselineConfig → List String
  comparison_errors none = []
  comparison_errors (some baseline) =
      error_if (is_empty_text (trim baseline.time_zone))
        "behavioral_baseline.time_zone must not be empty"
      ++ error_if (eqb baseline.learning_days 0 || eqb baseline.minimum_same_hour_samples 0)
          "behavioral baseline learning and sample counts must be positive"

  abbrev pub config_errors : Config → Bool → List (List String)
  config_errors config check =
      error_if (not (eqb config.schema_version config_version)) (
        format (
          "schema_version must be "
          ∷ decimal config_version
          ∷ ", got "
          ∷ decimal config.schema_version
          ∷ []))
      ∷ validate_absolute_path platform "state.path" (StateConfig.path config.state)
      ∷ retention_errors config
      ∷ request_errors config.observation
      ∷ count_errors config
      ∷ version_errors config
      ∷ comparison_errors config.behavioral_baseline
      ∷ validate_profiles platform config.condition_profiles
      ∷ validate_policies platform config.policies
      ∷ validate_targets config check
      ∷ validate_notifications platform config.notifications check
      ∷ []

  -- The errors of a configuration; it is accepted if there are none.
  unfoldable pub validate : Config → Bool → List String
  unfolding validate_absolute_path validate_range validate_profiles validate_policies
      validate_targets validate_notifications uses_untested_adguard_version joined
  validate config check = joined (config_errors config check)
