-- ===== src/Store/Attempt.antt =====
-- `begin_notification_attempt`: a message is claimed before any byte is sent.
use adguard_sentinel.Base.{
  String, count, Option, none, some, Bool, true, false, not, ◌&&◌, ◌||◌, List, [], ◌∷◌, ◌++◌, map,
  ltb, ◌==◌, str_leb, update_where, any, is_empty, is_none, join,
}
use adguard_sentinel.Base.Result.{Result, ok, err, ◌>>=◌, ◌>>◌}
use adguard_sentinel.Model.Run.{
  NotificationStatus, OutboxMessage, DeliveryAction, NotificationReport,
}
use adguard_sentinel.Outbox.Batch.{notification_line, message_limit}
use adguard_sentinel.Store.Tables.{
  Database, Notification, Member, AttemptOutcome, NotificationAttempt, StoreError, invalid_data,
  Timestamps, canonical_timestamp,
}
use adguard_sentinel.Store.Query.{
  is_unsent, is_retryable, row_of, required, load_outbox_message, notification_members,
  latest_completed, record_delivery_activity,
}

-- `if failed { return Err(...) }`.
abbrev pub refuse_if : Bool → String → Result StoreError (Unit {0})
refuse_if true text = err (invalid_data text)
refuse_if false text = ok tt

-- `Option<String>` through `canonical_timestamp`, with `transpose`.
unfoldable pub canonical_option : Timestamps → Option String → Result StoreError (Option String)
canonical_option T none = ok none
canonical_option T (some s) = do c ← canonical_timestamp T s; ok (some c)

-- `a < b` on texts.
abbrev pub before : String → String → Bool
before a b = not (str_leb b a)

abbrev pub regressed : String → String → Option String → Bool
regressed started created latest =
    before started created || elim latest [ none ↦ false | some l ↦ before started l ]

-- The claim is refused: the status, the retry time, or a retry without a time.
abbrev pub ineligible : String → Notification → Bool
ineligible started n =
    not (is_unsent n.status)
    || (elim n.next_retry_at [ none ↦ false | some retry ↦ before started retry ])
    || (is_retryable n.status && is_none n.next_retry_at)

abbrev pub members_invalid : List Member → Bool
members_invalid ms = is_empty ms || any (λ m. m.episode_id == "") ms

abbrev pub payload_of : List Member → String
payload_of ms = join "\n" (map (λ m. notification_line m.summary) ms)

abbrev in_flight_report : OutboxMessage → NotificationReport
in_flight_report m = record {
  id = m.id;
  transition = m.transition;
  condition_ids = m.condition_ids;
  status = NotificationStatus.in_flight;
  remote_request_id = none;
  error_class = none;
}

-- The checks, on the row and what was read with it.
unfoldable pub check_claim :
    Notification → List Member → String → Option String → String → Result StoreError (Unit {0})
check_claim row members created latest started = do
  refuse_if (regressed started created latest)
      "wall clock regressed before notification delivery; no attempt was started"
  refuse_if (ineligible started row) "notification is not eligible for a delivery attempt"
  refuse_if (members_invalid members) "notification has no valid episode membership"
  refuse_if
      (not (payload_of members == row.message) || ltb message_limit (count (payload_of members)))
      "notification payload does not match its condition membership"

module _ {F V : Type 0} where
  -- The two statements that claim the message.
  unfoldable pub claim : Database F V → String → String → String → String → Database F V
  claim db message_id new started executing = record db {
    attempts =
        db.attempts
        ++ record {
          id = new;
          notification_id = message_id;
          executing_run_id = executing;
          started_at = started;
          completed_at = none;
          outcome = AttemptOutcome.in_flight;
          http_status = none;
          remote_request_id = none;
          error_class = none;
        }
          ∷ [];
    notifications =
        update_where (λ n. n.id == message_id)
          (λ n. record n { status = NotificationStatus.in_flight; attempt_id = some new })
          db.notifications;
  }

  -- `new` is the attempt's `Uuid::new_v4`.
  unfoldable pub begin_notification_attempt :
      Timestamps
      → Database F V
      → OutboxMessage
      → String
      → String
      → String
      → Result StoreError (Database F V × NotificationAttempt)
  unfolding claim
  begin_notification_attempt T db message started_at executing_run_id new = do
    started ← canonical_timestamp T started_at
    stored ← load_outbox_message db (OutboxMessage.id message)
    row ← required (row_of db stored.id)
    created ← canonical_timestamp T (Notification.created_at row)
    latest ← canonical_option T (latest_completed db.runs)
    check_claim row (notification_members db stored.id) created latest started
    db' ←
        record_delivery_activity (claim db stored.id new started executing_run_id) executing_run_id
          (record {
            attempt_id = new;
            origin_run_id = stored.run_id;
            action = DeliveryAction.attempt;
            notification = in_flight_report stored;
          })
    ok (
      db',
      record {
        message = record stored { status = NotificationStatus.in_flight };
        id = new;
        started_at = started;
        executing_run_id = executing_run_id;
      },
    )
