-- ===== src/Adguard/Observe.antt =====
-- `get_json` and `observe`. The HTTP client, the parsing of URLs, JSON and versions are the
-- parameter `Platform`; within one observation each endpoint is asked once.
use adguard_sentinel.Base.{
  ℕ, String, ◌<>◌, Option, none, some, Bool, true, false, not, ◌||◌, List, [], ◌∷◌, ◌++◌, ltb, leb,
  eqb, if◌then◌else◌, length, saturating_add, u64_max, ◌&&◌,
}
use adguard_sentinel.Base.Chars.{decimal, trim_start_by}
use adguard_sentinel.Base.Float.{Float}
use adguard_sentinel.Base.Int.{ℤ}
use adguard_sentinel.Base.Result.{Result, ok, err, ◌>>=◌}
use adguard_sentinel.Config.Types.{PolicyConfig, TargetConfig, TargetAuth}
use adguard_sentinel.Model.Observation.{TargetReport, TargetStatus}
use adguard_sentinel.Adguard.Types.{
  AdGuardError, Endpoint, label, path_of, StatusResponse, StatsResponse, DnsResponse,
  FilteringResponse, RewriteResponse, RewriteSettingsResponse,
}
use adguard_sentinel.Adguard.Upstreams.{normalize_upstreams}
use adguard_sentinel.Adguard.Stats.{normalize_stats}
use adguard_sentinel.Adguard.Lists.{normalize_dns, normalize_filters, normalize_rewrites}

-- What `request_error_detail` asks of a `reqwest::Error`, in its order.
pub data RequestError : Type 0 where
  timeout connect decode other : RequestError

unfoldable pub request_error_detail : RequestError → String
request_error_detail RequestError.timeout = "request timed out"
request_error_detail RequestError.connect = "connection failed"
request_error_detail RequestError.decode = "response decoding failed"
request_error_detail RequestError.other = "request failed"

-- A response: the results of its `chunk` calls up to the one that returns `None`.
pub record HttpResponse : Type 0 where
  pub status : ℕ
  pub content_length : Option ℕ
  pub chunks : List (Result RequestError (List ℕ))

pub record Platform (F : Type 0) : Type 1 where
  pub Url : Type 0
  pub Version : Type 0
  -- `Url::parse`, then `set_path` and `set_query`.
  pub parse_url : String → Option Url
  pub set_path_and_query : String × Option String → Url → Url
  -- A GET, with the credentials of basic authentication.
  pub send : Url → Option (String × String) → Result RequestError HttpResponse
  -- `serde_json::from_slice`, whose error is a text.
  pub decode_status : List ℕ → Result String StatusResponse
  pub decode_stats : List ℕ → Result String (StatsResponse F)
  pub decode_dns : List ℕ → Result String DnsResponse
  pub decode_filtering : List ℕ → Result String FilteringResponse
  pub decode_rewrites : List ℕ → Result String (List RewriteResponse)
  pub decode_settings : List ℕ → Result String RewriteSettingsResponse
  pub parse_version : String → Option Version
  pub show_version : Version → String
  -- The client's `version_requirement`: `matches` and `to_string`.
  pub version_matches : Version → Bool
  pub show_requirement : String
  pub canonical_ip : String → Option String
  pub parse_seconds : String → Option ℤ

-- The loop over the chunks; a `usize` is a `u64`.
unfoldable pub read_body :
    ℕ → String → List ℕ → List (Result RequestError (List ℕ)) → Result AdGuardError (List ℕ)
unfolding request_error_detail
read_body limit endpoint body [] = ok body
read_body limit endpoint body (err e ∷ chunks) =
    err (AdGuardError.unavailable endpoint (request_error_detail e))
read_body limit endpoint body (ok chunk ∷ chunks) =
    let rest = read_body limit endpoint (body ++ chunk) chunks in
    let prospective = saturating_add u64_max (length body) (length chunk) in
    if ltb limit prospective then err (AdGuardError.response_too_large endpoint limit) else rest

-- What the request sends of the target's credentials.
unfoldable pub credentials :
    TargetConfig → Option String → Result AdGuardError (Option (String × String))
credentials target password = elim target.auth [
  | TargetAuth.none ↦ ok none
  | TargetAuth.basic ↦ elim target.username [
    | none ↦
        err
          (AdGuardError.invalid_response "configuration" "basic authentication requires a username")
    | some username ↦ elim password [
      | none ↦
          err (
            AdGuardError.invalid_response "configuration"
              "basic authentication requires a password")
      | some secret ↦ ok (some (username, secret))
    ]
  ]
]

abbrev too_long : ℕ → Option ℕ → Bool
too_long limit none = false
too_long limit (some n) = ltb limit n

-- `get_json` after `send`, up to the decoding.
unfoldable pub receive :
    ℕ → String → Result RequestError HttpResponse → Result AdGuardError (List ℕ)
unfolding read_body request_error_detail
receive limit endpoint (err e) = err (AdGuardError.unavailable endpoint (request_error_detail e))
receive limit endpoint (ok response) =
    if eqb response.status 401 || eqb response.status 403
    then err AdGuardError.authentication_rejected
    else if not (leb 200 response.status && ltb response.status 300)
    then err (AdGuardError.unavailable endpoint ("HTTP " <> decimal response.status))
    else if too_long limit response.content_length
    then err (AdGuardError.response_too_large endpoint limit)
    else read_body limit endpoint [] response.chunks

unfoldable pub decoded {ℓ} : {A : Type ℓ} → String → Result String A → Result AdGuardError A
decoded endpoint (ok value) = ok value
decoded endpoint (err e) =
    err (AdGuardError.invalid_response endpoint ("JSON decoding failed: " <> e))

module _ (fl : Float) (P : Platform (Float.F fl)) (limit : ℕ) where
  open fl use {F}
  open P use {
    Url, parse_url, set_path_and_query, send, decode_status, decode_stats, decode_dns,
    decode_filtering, decode_rewrites, decode_settings, parse_version, show_version,
    version_matches, show_requirement, canonical_ip, parse_seconds,
  }

  -- `Endpoint::url`.
  unfoldable pub url : Endpoint → String → Result AdGuardError Url
  unfolding path_of
  url endpoint base_url = elim (parse_url base_url) [
    | none ↦ err (AdGuardError.invalid_response "configuration" "base URL is invalid")
    | some parsed ↦ ok (set_path_and_query (path_of endpoint) parsed)
  ]

  unfoldable pub get_json {ℓ} :
      {A : Type ℓ}
      → (List ℕ → Result String A)
      → TargetConfig
      → Endpoint
      → Option String
      → Result AdGuardError A
  unfolding url label credentials receive decoded
  get_json parse target endpoint password = do
    address ← url endpoint (TargetConfig.base_url target)
    user ← credentials target password
    body ← receive limit (label endpoint) (send address user)
    decoded (label endpoint) (parse body)

  -- The version and the running state that `observe` asks for first.
  unfoldable pub check_status : StatusResponse → Result AdGuardError String
  unfolding label trim_start_by
  check_status status = elim (parse_version (trim_start_by (λ c. eqb c b'v') status.version)) [
    | none ↦ err (
        AdGuardError.invalid_response (label Endpoint.status)
          "version is not semantic-version data")
    | some version ↦
        if not (version_matches version)
        then err (AdGuardError.unsupported_version status.version show_requirement)
        else if not status.running
        then err (
            AdGuardError.invalid_response (label Endpoint.status)
              "running must be true for a complete observation")
        else ok (show_version version)
  ]

  unfoldable pub observe :
      TargetConfig
      → Option PolicyConfig
      → Option String
      → ℕ
      → ℤ
      → Result AdGuardError (TargetReport F)
  unfolding get_json check_status normalize_stats normalize_upstreams normalize_dns
      normalize_filters normalize_rewrites
  observe target policy password lookback now = do
    status ← get_json decode_status target Endpoint.status password
    version ← check_status status
    statistics ← get_json decode_stats target (Endpoint.stats lookback) password
    dns_answer ← get_json decode_dns target Endpoint.dns_info password
    filtering ← get_json decode_filtering target Endpoint.filtering_status password
    rewrite_list ← get_json decode_rewrites target Endpoint.rewrite_list password
    settings ← get_json decode_settings target Endpoint.rewrite_settings password
    operational ← normalize_stats fl (StatusResponse.protection_enabled status) statistics
    upstreams ←
        normalize_upstreams fl (StatsResponse.top_upstreams_avg_time statistics)
          (StatsResponse.top_upstreams_responses statistics)
    dns ← normalize_dns dns_answer
    filters ← normalize_filters parse_seconds now (FilteringResponse.filters filtering) policy
    rewrites ← normalize_rewrites canonical_ip rewrite_list
    ok (record {
      id = target.id;
      name = target.name;
      status = TargetStatus.complete;
      complete = true;
      server_version = some version;
      operational = some operational;
      dns = some dns;
      filtering_enabled = some (FilteringResponse.enabled filtering);
      rewrites_enabled = some (RewriteSettingsResponse.enabled settings);
      upstreams = upstreams;
      filters = filters;
      rewrites = rewrites;
      error_kind = none;
      error_detail = none;
    })
