-- ===== src/Adguard/Types.antt =====
-- The errors of the client, its endpoints, and the answers that it decodes.
use adguard_sentinel.Base.{ℕ, String, ◌<>◌, Option, none, some, Bool, List}
use adguard_sentinel.Base.Int.{ℤ}
use adguard_sentinel.Base.Chars.{decimal}
use adguard_sentinel.Base.Result.{Result, err}
use adguard_sentinel.Model.Observation.{TargetStatus}

-- `AdGuardError`.
pub data AdGuardError : Type 0 where
  authentication_rejected : AdGuardError
  unavailable : String → String → AdGuardError
  invalid_response : String → String → AdGuardError
  unsupported_version : String → String → AdGuardError
  response_too_large : String → ℕ → AdGuardError

unfoldable pub target_status : AdGuardError → TargetStatus
target_status AdGuardError.authentication_rejected = TargetStatus.authentication_rejected
target_status (AdGuardError.unavailable _ _) = TargetStatus.unavailable
target_status (AdGuardError.invalid_response _ _) = TargetStatus.invalid_response
target_status (AdGuardError.unsupported_version _ _) = TargetStatus.unsupported_version
target_status (AdGuardError.response_too_large _ _) = TargetStatus.response_too_large

unfoldable pub kind : AdGuardError → String
kind AdGuardError.authentication_rejected = "authentication_rejected"
kind (AdGuardError.unavailable _ _) = "api_unavailable"
kind (AdGuardError.invalid_response _ _) = "invalid_response"
kind (AdGuardError.unsupported_version _ _) = "unsupported_version"
kind (AdGuardError.response_too_large _ _) = "response_too_large"

-- `to_string`, as the attributes of the variants have it.
unfoldable pub describe : AdGuardError → String
describe AdGuardError.authentication_rejected = "AdGuard API authentication was rejected"
describe (AdGuardError.unavailable endpoint detail) =
    "AdGuard API request failed at " <> (endpoint <> (": " <> detail))
describe (AdGuardError.invalid_response endpoint detail) =
    "AdGuard API response was invalid at " <> (endpoint <> (": " <> detail))
describe (AdGuardError.unsupported_version observed required) =
    "AdGuard Home version " <> (observed <> (" is outside " <> required))
describe (AdGuardError.response_too_large endpoint limit) =
    "AdGuard API response exceeded " <> (decimal limit <> (" bytes at " <> endpoint))

-- `Endpoint`.
pub data Endpoint : Type 0 where
  status dns_info filtering_status rewrite_list rewrite_settings : Endpoint
  stats : ℕ → Endpoint

unfoldable pub label : Endpoint → String
label Endpoint.status = "GET /control/status"
label (Endpoint.stats _) = "GET /control/stats"
label Endpoint.dns_info = "GET /control/dns_info"
label Endpoint.filtering_status = "GET /control/filtering/status"
label Endpoint.rewrite_list = "GET /control/rewrite/list"
label Endpoint.rewrite_settings = "GET /control/rewrite/settings"

-- The path and the query of `Endpoint::url`.
unfoldable pub path_of : Endpoint → String × Option String
path_of Endpoint.status = ("/control/status", none)
path_of (Endpoint.stats recent) = ("/control/stats", some ("recent=" <> decimal recent))
path_of Endpoint.dns_info = ("/control/dns_info", none)
path_of Endpoint.filtering_status = ("/control/filtering/status", none)
path_of Endpoint.rewrite_list = ("/control/rewrite/list", none)
path_of Endpoint.rewrite_settings = ("/control/rewrite/settings", none)

pub record StatusResponse : Type 0 where
  pub protection_enabled : Bool
  pub running : Bool
  pub version : String

-- A `BTreeMap` is the list of its entries.
pub record StatsResponse (F : Type 0) : Type 0 where
  pub num_dns_queries : ℕ
  pub num_blocked_filtering : ℕ
  pub avg_processing_time : F
  pub top_upstreams_responses : List (List (String × ℕ))
  pub top_upstreams_avg_time : List (List (String × F))
  pub top_clients : List (List (String × ℕ))

pub record DnsResponse : Type 0 where
  pub upstream_dns : List String
  pub upstream_mode : String

pub record FilterResponse : Type 0 where
  pub id : ℤ
  pub enabled : Bool
  pub url : String
  pub rules_count : ℕ
  pub last_updated : Option String

pub record FilteringResponse : Type 0 where
  pub enabled : Bool
  pub filters : List FilterResponse

pub record RewriteResponse : Type 0 where
  pub domain : String
  pub answer : String
  pub enabled : Bool

pub record RewriteSettingsResponse : Type 0 where
  pub enabled : Bool

unfoldable pub invalid_stats {ℓ} : {A : Type ℓ} → String → Result AdGuardError A
unfolding label
invalid_stats detail = err (AdGuardError.invalid_response (label (Endpoint.stats 0)) detail)
