-- ===== src/Examples/Stores.antt =====
-- A message from its claim to the outcome of its attempt (crates/sentinel-store/src/store.rs).
use adguard_sentinel.Base.{
  ◌≡◌, ◌⊎◌, ℕ, ◌≢◌, refl, String, none, some, [], ◌∷◌, join, not, str_leb, sort_with, insert_with,
}
use adguard_sentinel.Base.Int.{pos}
use adguard_sentinel.Base.Result.{ok, ok_or}
use adguard_sentinel.Model.Condition.{TransitionKind}
use adguard_sentinel.Model.Run.{
  OutboxMessage, NotificationStatus, NotificationReport, RunMode, RunStatus,
}
use adguard_sentinel.Outbox.Batch.{notification_line}
use adguard_sentinel.Store.Tables.{
  Database, Notification, Timestamps, NotificationAttempt, NotificationAttemptOutcome,
  canonical_timestamp,
}
use adguard_sentinel.Store.Query.{
  load_outbox_message, record_delivery_activity, notification_members, latest_completed, message_of,
  load_notification_conditions, refresh_evaluation,
}
use adguard_sentinel.Store.Attempt.{
  begin_notification_attempt, claim, check_claim, canonical_option,
}
use adguard_sentinel.Store.Record.{
  record_notification_attempt, close, settle_conditions, mark_exit, next_retry, settle_members,
  settle_member,
}
use adguard_sentinel.Store.Evolution.{IsMove}
use adguard_sentinel.Store.Status.{begin-IsMove, record-IsMove, begin_twice}

-- Texts in canonical form already.
abbrev pub clock : Timestamps
clock = record {
  Timestamp = String;
  parse = some;
  earlier = λ a b. not (str_leb b a);
  display = λ t. t;
  as_second = λ t. pos 0;
  subsec_nanosecond = λ t. pos 0;
  of_parts = λ s n. some "2026-01-01T00:00:05.000000000Z";
}

abbrev pub start : String
start = "2026-01-01T00:00:00.000000000Z"

abbrev pub queued : Notification
queued = record {
  id = "m1";
  run_id = "r1";
  transition = TransitionKind.alert;
  title = "AdGuard anomaly detected";
  message = "- down";
  priority = pos 0;
  status = NotificationStatus.pending;
  created_at = start;
  next_retry_at = none;
  delivered_at = none;
  remote_request_id = none;
  error_class = none;
  attempt_id = none;
}

abbrev pub db : Database ℕ ℕ
db = record {
  run_mode = none;
  runs =
      record {
        id = "r1";
        started_at = start;
        completed_at = start;
        mode = RunMode.live;
        config_sha256 = "";
        status = RunStatus.complete;
        expected_targets = 1;
        complete_targets = 1;
        minimum_targets = 1;
        exit_code = 0;
        health_issues = [];
        delivery_activity = [];
      }
      ∷ [];
  targets = [];
  upstreams = [];
  filters = [];
  rewrites = [];
  aggregates = [];
  evaluations = [];
  states = [];
  runtime = [];
  notifications = queued ∷ [];
  members =
      record {
        notification_id = "m1";
        condition_id = "target:one:api";
        episode_id = "r1";
        summary = "down";
      }
      ∷ [];
  attempts = [];
}

abbrev pub pushed : OutboxMessage
pushed = record {
  id = "m1";
  run_id = "r1";
  transition = TransitionKind.alert;
  title = "AdGuard anomaly detected";
  message = "- down";
  priority = pos 0;
  status = NotificationStatus.pending;
  condition_ids = "target:one:api" ∷ [];
}

abbrev pub attempt : NotificationAttempt
attempt = record {
  message = record pushed { status = NotificationStatus.in_flight };
  id = "a1";
  started_at = start;
  executing_run_id = "r1";
}

abbrev pub claimed : Database ℕ ℕ
claimed = (ok_or (begin_notification_attempt clock db pushed start "r1" "a1") (db, attempt)).0

abbrev pub delivered : NotificationAttemptOutcome
delivered = NotificationAttemptOutcome.delivered 200 "p1"

abbrev report : NotificationReport
report = record {
  id = "m1";
  transition = TransitionKind.alert;
  condition_ids = "target:one:api" ∷ [];
  status = NotificationStatus.delivered;
  remote_request_id = some "p1";
  error_class = none;
}

abbrev settled : Database ℕ ℕ
settled = (ok_or (record_notification_attempt clock claimed attempt start delivered) (db, report)).0

begin-IsMove_example :
    (first : NotificationStatus) × ((first ≡ NotificationStatus.pending)
      ⊎ (first ≡ NotificationStatus.retryable))
    × IsMove pushed.id first NotificationStatus.in_flight db.notifications claimed.notifications
unfolding begin_notification_attempt claim check_claim load_outbox_message record_delivery_activity
    canonical_timestamp notification_members latest_completed notification_line join
    canonical_option load_notification_conditions sort_with insert_with message_of
begin-IsMove_example = begin-IsMove clock db pushed start "r1" "a1" (tt, tt) refl

record-IsMove_example :
    IsMove attempt.message.id NotificationStatus.in_flight NotificationStatus.delivered
      claimed.notifications settled.notifications
unfolding begin_notification_attempt claim check_claim load_outbox_message record_delivery_activity
    canonical_timestamp notification_members latest_completed notification_line join
    canonical_option load_notification_conditions sort_with insert_with message_of
    record_notification_attempt close settle_conditions mark_exit next_retry settle_members
    settle_member refresh_evaluation
record-IsMove_example = record-IsMove clock claimed attempt start delivered (tt, tt) refl

begin_twice_example :
    begin_notification_attempt clock claimed pushed start "r2" "a2" ≢ ok (claimed, attempt)
unfolding begin_notification_attempt claim check_claim load_outbox_message record_delivery_activity
    canonical_timestamp notification_members latest_completed notification_line join
    canonical_option load_notification_conditions sort_with insert_with message_of
begin_twice_example = begin_twice clock db pushed pushed start "r1" "a1" start "r2" "a2" refl refl
