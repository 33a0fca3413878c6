-- ===== src/Cli/Response.antt =====
-- `classify_response` (apps/sentinel-cli/src/notify.rs). The body is given as JSON decoding left it.
use adguard_sentinel.Base.{ℕ, String, Option, none, some, Bool, ◌&&◌, leb, ltb, eqb, if◌then◌else◌}
use adguard_sentinel.Base.Chars.{is_empty_text}
use adguard_sentinel.Store.Tables.{NotificationAttemptOutcome}

pub record PushoverResponse : Type 0 where
  pub status : ℕ
  pub request : String

-- `StatusCode::is_server_error`.
abbrev pub is_server_error : ℕ → Bool
is_server_error status = leb 500 status && ltb status 600

abbrev request_of : Option PushoverResponse → Option String
request_of none = none
request_of (some r) = some (PushoverResponse.request r)

unfoldable pub classify_response : ℕ → Option PushoverResponse → NotificationAttemptOutcome
classify_response status parsed =
    if eqb status 200
    then elim parsed [
      | none ↦ NotificationAttemptOutcome.unknown "invalid_success_response"
      | some r ↦
          if eqb (PushoverResponse.status r) 1
          then (if is_empty_text (PushoverResponse.request r)
              then NotificationAttemptOutcome.unknown "success_response_missing_request_id"
              else NotificationAttemptOutcome.delivered status (PushoverResponse.request r))
          else NotificationAttemptOutcome.failed (some status) (some (PushoverResponse.request r))
              "pushover_status_rejected"
    ]
    else if is_server_error status
    then NotificationAttemptOutcome.retryable (some status) "pushover_server_error"
    else NotificationAttemptOutcome.failed (some status) (request_of parsed)
        "pushover_permanent_rejection"
