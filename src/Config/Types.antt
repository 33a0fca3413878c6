-- ===== src/Config/Types.antt =====
-- The configuration's types and their defaults. A path is its text.
use adguard_sentinel.Base.{ℕ, String, Option, Bool, false, List, [], ◌∷◌}

pub record StateConfig : Type 0 where
  pub path : String
  pub retention_days : ℕ

unfoldable pub default_state : StateConfig
default_state = record { path = "/var/lib/adguard-sentinel/state.sqlite"; retention_days = 21 }

abbrev pub supported_adguard_requirement : String
supported_adguard_requirement = ">=0.107.78,<0.108.0"

pub record ObservationConfig : Type 0 where
  pub request_timeout_ms : ℕ
  pub notification_timeout_ms : ℕ
  pub max_response_bytes : ℕ
  pub stats_lookback_ms : ℕ
  pub target_concurrency : ℕ
  pub minimum_complete_targets : ℕ
  pub adguard_version_requirement : String
  pub allow_untested_adguard_version : Bool

unfoldable pub default_observation : ObservationConfig
default_observation = record {
  request_timeout_ms = 5000;
  notification_timeout_ms = 15000;
  max_response_bytes = 4194304;
  stats_lookback_ms = 3600000;
  target_concurrency = 2;
  minimum_complete_targets = 1;
  adguard_version_requirement = supported_adguard_requirement;
  allow_untested_adguard_version = false;
}

pub record BehavioralBaselineConfig : Type 0 where
  pub target_ids : List String
  pub time_zone : String
  pub learning_days : ℕ
  pub minimum_same_hour_samples : ℕ

pub record ConditionProfile : Type 0 where
  pub authentication_rejected_sustain_runs : ℕ
  pub api_unavailable_sustain_runs : ℕ
  pub invalid_response_sustain_runs : ℕ
  pub unsupported_version_sustain_runs : ℕ
  pub protection_disabled_sustain_runs : ℕ
  pub processing_latency_sustain_runs : ℕ
  pub upstream_latency_sustain_runs : ℕ
  pub policy_drift_sustain_runs : ℕ
  pub behavioral_anomaly_sustain_runs : ℕ
  pub recovery_runs : ℕ
  pub authentication_retry_seconds : ℕ
  pub processing_latency_ms : ℕ
  pub upstream_latency_ms : ℕ

unfoldable pub default_profile : ConditionProfile
default_profile = record {
  authentication_rejected_sustain_runs = 1;
  api_unavailable_sustain_runs = 4;
  invalid_response_sustain_runs = 1;
  unsupported_version_sustain_runs = 1;
  protection_disabled_sustain_runs = 2;
  processing_latency_sustain_runs = 4;
  upstream_latency_sustain_runs = 4;
  policy_drift_sustain_runs = 4;
  behavioral_anomaly_sustain_runs = 4;
  recovery_runs = 1;
  authentication_retry_seconds = 900;
  processing_latency_ms = 500;
  upstream_latency_ms = 750;
}

unfoldable pub default_condition_profiles : List (String × ConditionProfile)
unfolding default_profile
default_condition_profiles = ("current", default_profile) ∷ []

pub data NotificationProvider : Type 0 where
  disabled pushover : NotificationProvider

pub data TargetAuth : Type 0 where
  none basic : TargetAuth

pub record PushoverConfig : Type 0 where
  pub application_token_file : String
  pub user_key_file : String

pub record NotificationConfig : Type 0 where
  pub provider : NotificationProvider
  pub pushover : Option PushoverConfig

unfoldable pub default_notifications : NotificationConfig
default_notifications = record { provider = NotificationProvider.disabled; pushover = Option.none }

pub record RequiredFilter : Type 0 where
  pub url : String
  pub enabled : Bool
  pub maximum_age_hours : Option ℕ

pub record RequiredRewrite : Type 0 where
  pub domain : String
  pub answer : String
  pub enabled : Bool

pub record RequiredRewrites : Type 0 where
  pub enabled : Option Bool
  pub required : List RequiredRewrite

pub record PolicyConfig : Type 0 where
  pub protection_enabled : Option Bool
  pub upstream_mode : Option String
  pub upstream_dns : Option (List String)
  pub filters : List RequiredFilter
  pub rewrites : RequiredRewrites

pub record TargetConfig : Type 0 where
  pub id : String
  pub name : String
  pub base_url : String
  pub auth : TargetAuth
  pub username : Option String
  pub password_file : Option String
  pub policy : Option String
  pub condition_profile : String
  pub allow_insecure_local_http : Bool

pub record Config : Type 0 where
  pub schema_version : ℕ
  pub state : StateConfig
  pub observation : ObservationConfig
  pub behavioral_baseline : Option BehavioralBaselineConfig
  pub condition_profiles : List (String × ConditionProfile)
  pub notifications : NotificationConfig
  pub policies : List (String × PolicyConfig)
  pub targets : List TargetConfig
