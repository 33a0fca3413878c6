-- ===== src/Model/Observation.antt =====
-- What a run observes of a resolver (crates/sentinel-core/src/model.rs), over the floats `fl`.
use adguard_sentinel.Base.{
  ℕ, String, Option, none, some, Bool, false, List, [], ◌||◌, not, if◌then◌else◌,
}
use adguard_sentinel.Base.Int.{ℤ}
use adguard_sentinel.Base.Float.{Float}

pub data TargetStatus : Type 0 where
  complete authentication_rejected authentication_cooldown unavailable : TargetStatus
  invalid_response unsupported_version response_too_large : TargetStatus

pub record DnsObservation : Type 0 where
  pub upstream_mode : String
  pub upstream_dns : List String

pub record FilterObservation : Type 0 where
  pub url : String
  pub server_id : ℤ
  pub enabled : Bool
  pub rules_count : ℕ
  pub last_updated : Option String
  pub last_updated_unix_seconds : Option ℤ

pub record RewriteObservation : Type 0 where
  pub domain : String
  pub answer : String
  pub enabled : Bool

-- One persisted reading of a target's cumulative counters.
pub record TargetSample : Type 0 where
  pub run_id : String
  pub target_id : String
  pub timestamp : ℤ
  pub queries : ℕ
  pub blocked : ℕ

pub record UpstreamCounter : Type 0 where
  pub identity : String
  pub responses : ℕ
  pub total_microseconds : ℕ

pub record UpstreamSample : Type 0 where
  pub target_id : String
  pub observation_started : ℤ
  pub timestamp : ℤ
  pub upstreams : List UpstreamCounter

pub record OperationalObservation (F : Type 0) : Type 0 where
  pub protection_enabled : Bool
  pub queries : ℕ
  pub blocked : ℕ
  pub blocked_ratio : F
  pub average_processing_seconds : F
  pub maximum_upstream_seconds : F
  pub top_client_share : F

pub record UpstreamObservation (F : Type 0) : Type 0 where
  pub identity : String
  pub average_seconds : F
  pub responses : Option ℕ

pub record TargetReport (F : Type 0) : Type 0 where
  pub id : String
  pub name : String
  pub status : TargetStatus
  pub complete : Bool
  pub server_version : Option String
  pub operational : Option (OperationalObservation F)
  pub dns : Option DnsObservation
  pub filtering_enabled : Option Bool
  pub rewrites_enabled : Option Bool
  pub upstreams : List (UpstreamObservation F)
  pub filters : List FilterObservation
  pub rewrites : List RewriteObservation
  pub error_kind : Option String
  pub error_detail : Option String

-- `TargetReport::incomplete`.
unfoldable pub incomplete :
    {F : Type 0} → String → String → TargetStatus → String → String → TargetReport F
incomplete id name status error_kind error_detail = record {
  id = id;
  name = name;
  status = status;
  complete = false;
  server_version = none;
  operational = none;
  dns = none;
  filtering_enabled = none;
  rewrites_enabled = none;
  upstreams = [];
  filters = [];
  rewrites = [];
  error_kind = some error_kind;
  error_detail = some error_detail;
}

-- `UpstreamCounter::from_average`.
unfoldable pub from_average : (fl : Float) → String → Float.F fl → ℕ → Option UpstreamCounter
from_average fl identity average_seconds responses =
    if not (is_finite average_seconds) || lt average_seconds (literal 0 0)
    then none
    else (let total = round (mul (mul average_seconds (literal 1000000 0)) (of_u64 responses)) in
        if lt (literal 9007199254740992 0) total
        then none
        else some (record {
          identity = identity;
          responses = responses;
          total_microseconds = to_u64 total;
        }))
  where
    open fl use {is_finite, lt, literal, round, mul, of_u64, to_u64}
