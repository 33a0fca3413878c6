-- ===== src/Examples/Configs.antt =====
-- An accepted configuration (crates/sentinel-core/src/config.rs).
use adguard_sentinel.Base.{
  is_some, ◌≡◌, refl, String, none, some, true, false, List, [], ◌∷◌, All, is_empty, lookup,
}
use adguard_sentinel.Base.Result.{ok}
use adguard_sentinel.Cli.Exit.{baseline_profile}
use adguard_sentinel.Cli.Profile.{baseline_profile-some}
use adguard_sentinel.Config.Types.{
  BehavioralBaselineConfig, Config, TargetAuth, PolicyConfig, default_state, default_observation,
  default_profile, default_condition_profiles, default_notifications,
}
use adguard_sentinel.Config.Names.{valid_id}
use adguard_sentinel.Base.Chars.{trim}
use adguard_sentinel.Config.Platform.{Platform, Host}
use adguard_sentinel.Config.Profiles.{IsSound, validate_profiles, validate_profiles-nil}
use adguard_sentinel.Config.Validate.{validate}
use adguard_sentinel.Config.Accepted.{IsAccepted, validate-IsAccepted}

-- A system on which every URL parses to one HTTPS host, and every path is absolute.
abbrev system : Platform
system = record {
  debug = λ s. s;
  parse_url = λ s. some (record {
    scheme = "https";
    username = "";
    password = none;
    host = some (Host.domain "one.example");
    path = "/";
    query = none;
    fragment = none;
  });
  is_requirement = λ s. true;
  is_absolute = λ s. true;
  metadata = λ s. ok (record { is_file = true; size = 1 });
  canonical_ip = λ s. none;
}

abbrev home : PolicyConfig
home = record {
  protection_enabled = some true;
  upstream_mode = none;
  upstream_dns = none;
  filters =
      record { url = "https://lists.example/a.txt"; enabled = true; maximum_age_hours = some 24 }
      ∷ [];
  rewrites = record { enabled = none; required = [] };
}

abbrev policies : List (String × PolicyConfig)
policies = ("home", home) ∷ []

abbrev pub config : Config
config = record {
  schema_version = 1;
  state = default_state;
  observation = default_observation;
  behavioral_baseline = none;
  condition_profiles = default_condition_profiles;
  notifications = default_notifications;
  policies = policies;
  targets =
      record {
        id = "one";
        name = "One";
        base_url = "https://one.example/";
        auth = TargetAuth.none;
        username = none;
        password_file = none;
        policy = some "home";
        condition_profile = "current";
        allow_insecure_local_http = false;
      }
      ∷ [];
}

validate_profiles-nil_example :
    (is_empty default_condition_profiles ≡ false) × All IsSound default_condition_profiles
unfolding default_condition_profiles default_profile validate_profiles valid_id
validate_profiles-nil_example = (validate_profiles-nil system default_condition_profiles).0 refl

validate-IsAccepted_example : IsAccepted config
unfolding validate default_state default_observation default_condition_profiles valid_id trim lookup
    default_notifications
validate-IsAccepted_example = validate-IsAccepted system config true refl

abbrev group : BehavioralBaselineConfig
group = record {
  target_ids = "one" ∷ [];
  time_zone = "Etc/UTC";
  learning_days = 7;
  minimum_same_hour_samples = 1;
}

baseline_profile-some_example : is_some (baseline_profile config group) ≡ true
unfolding lookup default_condition_profiles
baseline_profile-some_example = baseline_profile-some config group "one" [] refl refl (refl, tt)
