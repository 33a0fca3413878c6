-- ===== src/Store/Record.antt =====
-- `record_notification_attempt`: the outcome of a send, with the message's status and the delivery
-- state of its conditions' episodes.
use adguard_sentinel.Base.{
  ℕ, String, Option, none, some, Bool, true, false, not, ◌&&◌, ◌||◌, List, [], ◌∷◌, if◌then◌else◌,
  ◌==◌, update_where, any, is_none,
}
use adguard_sentinel.Base.Int.{pos, ◌+ℤ◌, leb_ℤ, i64_max}
use adguard_sentinel.Base.Result.{Result, ok, err, ◌>>=◌, ◌>>◌}
use adguard_sentinel.Model.Condition.{TransitionKind, AlertDeliveryState, is_alert}
use adguard_sentinel.Model.Run.{
  NotificationStatus, OutboxMessage, DeliveryAction, NotificationReport,
}
use adguard_sentinel.Latch.Advance.{settle}
use adguard_sentinel.Store.Tables.{
  Database, Notification, Member, Attempt, AttemptOutcome, NotificationAttempt,
  NotificationAttemptOutcome, StoreError, invalid_data, Timestamps, canonical_timestamp,
}
use adguard_sentinel.Store.Query.{
  is_in_flight, is_retryable, is_delivered_status, row_of, required, load_outbox_message,
  notification_members, record_delivery_activity, refresh_evaluation,
}
use adguard_sentinel.Store.Attempt.{refuse_if, before}

-- The `match` on the outcome, a field at a time.
abbrev pub status_of : NotificationAttemptOutcome → NotificationStatus
status_of (NotificationAttemptOutcome.delivered _ _) = NotificationStatus.delivered
status_of (NotificationAttemptOutcome.retryable _ _) = NotificationStatus.retryable
status_of (NotificationAttemptOutcome.failed _ _ _) = NotificationStatus.failed
status_of (NotificationAttemptOutcome.unknown _) = NotificationStatus.unknown

abbrev pub label_of : NotificationAttemptOutcome → AttemptOutcome
label_of (NotificationAttemptOutcome.delivered _ _) = AttemptOutcome.delivered
label_of (NotificationAttemptOutcome.retryable _ _) = AttemptOutcome.retryable
label_of (NotificationAttemptOutcome.failed _ _ _) = AttemptOutcome.failed
label_of (NotificationAttemptOutcome.unknown _) = AttemptOutcome.unknown

abbrev http_status_of : NotificationAttemptOutcome → Option ℕ
http_status_of (NotificationAttemptOutcome.delivered code _) = some code
http_status_of (NotificationAttemptOutcome.retryable code _) = code
http_status_of (NotificationAttemptOutcome.failed code _ _) = code
http_status_of (NotificationAttemptOutcome.unknown _) = none

abbrev remote_of : NotificationAttemptOutcome → Option String
remote_of (NotificationAttemptOutcome.delivered _ id) = some id
remote_of (NotificationAttemptOutcome.retryable _ _) = none
remote_of (NotificationAttemptOutcome.failed _ id _) = id
remote_of (NotificationAttemptOutcome.unknown _) = none

abbrev error_of : NotificationAttemptOutcome → Option String
error_of (NotificationAttemptOutcome.delivered _ _) = none
error_of (NotificationAttemptOutcome.retryable _ e) = some e
error_of (NotificationAttemptOutcome.failed _ _ e) = some e
error_of (NotificationAttemptOutcome.unknown e) = some e

-- What the outcome says of the conditions' alert, if anything.
abbrev pub delivery_state_of : NotificationStatus → TransitionKind → Option AlertDeliveryState
delivery_state_of NotificationStatus.delivered kind =
    some (if is_alert kind then AlertDeliveryState.delivered else AlertDeliveryState.resolved)
delivery_state_of NotificationStatus.failed kind = some AlertDeliveryState.failed
delivery_state_of NotificationStatus.unknown kind = some AlertDeliveryState.unknown
delivery_state_of _ kind = none

-- Five seconds after the attempt, with the nanoseconds kept.
unfoldable pub retry_time : Timestamps → String → Result StoreError String
retry_time T completed = elim (parse completed) [
  | none ↦ err (invalid_data "invalid timestamp")
  | some t ↦
      (let second = as_second t +ℤ pos 5 in
        if leb_ℤ second i64_max
        then elim (of_parts second (subsec_nanosecond t)) [
          | none ↦ err (invalid_data "timestamp out of range")
          | some later ↦ ok (display later)
        ]
        else err (invalid_data "retry timestamp overflows"))
]
  where
    open T use {parse, as_second, subsec_nanosecond, of_parts, display}

unfoldable pub next_retry :
    Timestamps → NotificationStatus → String → Result StoreError (Option String)
unfolding retry_time
next_retry T status completed =
    if is_retryable status then (do retry ← retry_time T completed; ok (some retry)) else ok none

abbrev pub is_open_attempt : String → String → Attempt → Bool
is_open_attempt id message_id a =
    (a.id == id)
    && (a.notification_id == message_id)
    && elim a.outcome [ AttemptOutcome.in_flight ↦ true | _ ↦ false ]
    && is_none a.completed_at

abbrev pub close_attempt : NotificationAttemptOutcome → String → Attempt → Attempt
close_attempt outcome completed a = record a {
  completed_at = some completed;
  outcome = label_of outcome;
  http_status = http_status_of outcome;
  remote_request_id = remote_of outcome;
  error_class = error_of outcome;
}

abbrev pub close_row :
    NotificationAttemptOutcome → String → Option String → Notification → Notification
close_row outcome completed retry n = record n {
  status = status_of outcome;
  delivered_at = if is_delivered_status (status_of outcome) then some completed else none;
  remote_request_id = remote_of outcome;
  error_class = error_of outcome;
  next_retry_at = retry;
}

abbrev pub report_of : OutboxMessage → NotificationAttemptOutcome → NotificationReport
report_of message outcome = record {
  id = message.id;
  transition = message.transition;
  condition_ids = message.condition_ids;
  status = status_of outcome;
  remote_request_id = remote_of outcome;
  error_class = error_of outcome;
}

-- What the row and the attempt must look like.
abbrev pub not_in_flight : Notification → NotificationAttempt → Bool
not_in_flight n attempt =
    not (is_in_flight n.status)
    || not (elim n.attempt_id [ none ↦ false | some id ↦ id == attempt.id ])

module _ {F V : Type 0} where
  -- One member's episode learns the fate of the message.
  unfoldable pub settle_member : AlertDeliveryState → String → Database F V → Member → Database F V
  settle_member d run_id db m =
      refresh_evaluation
        (record db {
          states =
              update_where (λ s. s.id == m.condition_id) (λ s. settle s m.episode_id d) db.states;
        })
        run_id m.condition_id m.episode_id d

  unfoldable pub settle_members :
      AlertDeliveryState → String → Database F V → List Member → Database F V
  unfolding settle_member
  settle_members d run_id db [] = db
  settle_members d run_id db (m ∷ ms) = settle_members d run_id (settle_member d run_id db m) ms

  unfoldable pub settle_conditions :
      Option AlertDeliveryState → OutboxMessage → Database F V → Database F V
  unfolding settle_members
  settle_conditions none message db = db
  settle_conditions (some d) message db =
      settle_members d message.run_id db (notification_members db message.id)

  -- The `UPDATE`s of the attempt and of its message.
  unfoldable pub close :
      Database F V
      → NotificationAttempt
      → String
      → NotificationAttemptOutcome
      → String
      → Option String
      → Database F V
  close db attempt message_id outcome completed retry = record db {
    attempts =
        update_where (is_open_attempt attempt.id message_id) (close_attempt outcome completed)
          db.attempts;
    notifications =
        update_where (λ n. n.id == message_id) (close_row outcome completed retry) db.notifications;
  }

  -- `UPDATE runs SET exit_code = 4`, but for a delivered message.
  unfoldable pub mark_exit : NotificationStatus → String → Database F V → Database F V
  mark_exit status run_id db = if is_delivered_status status then db else record db {
    runs = update_where (λ r. r.id == run_id) (λ r. record r { exit_code = 4 }) db.runs;
  }

  unfoldable pub record_notification_attempt :
      Timestamps
      → Database F V
      → NotificationAttempt
      → String
      → NotificationAttemptOutcome
      → Result StoreError (Database F V × NotificationReport)
  unfolding close settle_conditions mark_exit next_retry
  record_notification_attempt T db attempt completed_at outcome = do
    completed ← canonical_timestamp T completed_at
    refuse_if (before completed attempt.started_at)
        "wall clock regressed during notification delivery; outcome remains unconfirmed"
    message ← load_outbox_message db (OutboxMessage.id (NotificationAttempt.message attempt))
    row ← required (row_of db message.id)
    refuse_if (not_in_flight row attempt) "notification attempt is no longer in flight"
    refuse_if (not (any (is_open_attempt attempt.id message.id) db.attempts))
        "notification attempt lacks an unfinished durable record"
    retry ← next_retry T (status_of outcome) completed
    db' ←
        record_delivery_activity
          (settle_conditions (delivery_state_of (status_of outcome) message.transition) message
            (close db attempt message.id outcome completed retry))
          attempt.executing_run_id
          (record {
            attempt_id = attempt.id;
            origin_run_id = message.run_id;
            action = DeliveryAction.attempt;
            notification = report_of message outcome;
          })
    ok (mark_exit (status_of outcome) attempt.executing_run_id db', report_of message outcome)
