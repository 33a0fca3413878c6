-- ===== src/Store/Status.antt =====
-- The life of a message: what each operation may do to a row of `notification_outbox`.
use mathlib.Core.Option
use mathlib.Core.Option.{some-injective}
use adguard_sentinel.Base.{
  subst, ◌≡◌, ◌≢◌, refl, sym, ap, ◌∙◌, String, Option, none, some, true, List, [], ◌∷◌, arith, ◌==◌,
  eq_iff, find_by, inl, inr, Option-cases, ◌⊎◌,
}
use adguard_sentinel.Base.Result.{ok, ok_or}
use adguard_sentinel.Model.Condition.{AlertDeliveryState}
use adguard_sentinel.Model.Run.{NotificationStatus, OutboxMessage, NotificationReport}
use adguard_sentinel.Store.Tables.{
  Database, Notification, Member, NotificationAttempt, NotificationAttemptOutcome, Timestamps,
  canonical_timestamp,
}
use adguard_sentinel.Store.Query.{
  is_unsent, row_of, load_outbox_message, record_delivery_activity, refresh_evaluation,
  notification_members,
}
use adguard_sentinel.Store.Attempt.{begin_notification_attempt, claim, check_claim}
use adguard_sentinel.Store.Record.{
  record_notification_attempt, status_of, close, close_row, settle_member, settle_members,
  settle_conditions, next_retry, delivery_state_of,
}
use adguard_sentinel.Store.Evolution.{
  IsMove, IsKeyed, find-update, update-split, ending, status_of_lem,
}

unsent-cases :
    (s : NotificationStatus)
    → is_unsent s ≡ true
    → (s ≡ NotificationStatus.pending) ⊎ (s ≡ NotificationStatus.retryable)
unsent-cases s h = ground arith

module _ {F V : Type 0} (T : Timestamps) where
  -- A claim that succeeds found its row unsent, and changed it alone.
  pub begin_cases :
      (db : Database F V) (message : OutboxMessage) (started run new : String) {db' : Database F V}
      {attempt : NotificationAttempt}
      → begin_notification_attempt T db message started run new ≡ ok (db', attempt)
      → (row : Notification) × (row_of db message.id ≡ some row)
        × (is_unsent row.status ≡ true)
        × (db'.notifications ≡ (claim db message.id new attempt.started_at run).notifications)
  unfolding begin_notification_attempt load_outbox_message check_claim record_delivery_activity
  begin_cases db message started run new {db'} {attempt} h =
      elim (Option-cases (row_of db message.id)) [
        | inl gone ↦ ground arith
        | inr (row, found) ↦ (row, found, ground arith, ground arith)
      ]

  -- Claiming a message for a delivery attempt moves one row, that of the message, from pending or
  -- retryable to in flight, and adds no row; the row keeps its content and its age, and every other
  -- row stays as it was, in a table whose ids are distinct.
  pub begin-IsMove :
      (db : Database F V) (message : OutboxMessage) (started run new : String) {db' : Database F V}
      {attempt : NotificationAttempt}
      → IsKeyed db.notifications
      → begin_notification_attempt T db message started run new ≡ ok (db', attempt)
      → (first : NotificationStatus) × ((first ≡ NotificationStatus.pending)
          ⊎ (first ≡ NotificationStatus.retryable))
        × IsMove message.id first NotificationStatus.in_flight db.notifications db'.notifications
  unfolding claim
  begin-IsMove db message started run new {db'} keyed h =
      let (row, found, unsent, after) = begin_cases db message started run new h in
      let (ahead, behind, old, moved, named) =
        update-split message.id
          (λ n. record n { status = NotificationStatus.in_flight; attempt_id = some new })
          db.notifications row keyed found in
      (
        row.status,
        unsent-cases row.status unsent,
        record {
          ahead = ahead;
          row = row;
          row' = record row { status = NotificationStatus.in_flight; attempt_id = some new };
          behind = behind;
          old_rows = old;
          new_rows = after ∙ moved;
          named = named;
          begun = refl;
          ended = refl;
          same = record {
            same_id = refl;
            same_run = refl;
            same_transition = refl;
            same_title = refl;
            same_message = refl;
            same_priority = refl;
            same_age = refl;
          };
        },
      )

  refresh-notifications :
      (db : Database F V) (run condition episode : String) (d : AlertDeliveryState)
      → (refresh_evaluation db run condition episode d).notifications ≡ db.notifications
  unfolding refresh_evaluation
  refresh-notifications db run condition episode d = ground arith

  settle_members-notifications :
      (d : AlertDeliveryState) (run : String) (db : Database F V) (ms : List Member)
      → (settle_members d run db ms).notifications ≡ db.notifications
  unfolding settle_members
  settle_members-notifications d run db [] = refl
  settle_members-notifications d run db (m ∷ ms) =
      settle_members-notifications d run (settle_member d run db m) ms
      ∙ refresh-notifications _ run m.condition_id m.episode_id d

  settle_conditions-notifications :
      (d : Option AlertDeliveryState) (message : OutboxMessage) (db : Database F V)
      → (settle_conditions d message db).notifications ≡ db.notifications
  unfolding settle_conditions
  settle_conditions-notifications none message db = refl
  settle_conditions-notifications (some d) message db =
      settle_members-notifications d message.run_id db (notification_members db message.id)

  -- An outcome that is recorded found its row in flight, under its own attempt, and changed it
  -- alone.
  pub record_cases :
      (db : Database F V) (attempt : NotificationAttempt) (completed : String)
      (outcome : NotificationAttemptOutcome) {db' : Database F V} {report : NotificationReport}
      → record_notification_attempt T db attempt completed outcome ≡ ok (db', report)
      → let at' = ok_or (canonical_timestamp T completed) "" in
        let retry = ok_or (next_retry T (status_of outcome) at') none in
        (row : Notification) × (row_of db attempt.message.id ≡ some row)
        × (row.status ≡ NotificationStatus.in_flight)
        × (row.attempt_id ≡ some attempt.id)
        × (db'.notifications
            ≡ (close db attempt attempt.message.id outcome at' retry).notifications)
  unfolding record_notification_attempt load_outbox_message record_delivery_activity
  record_cases db attempt completed outcome {db'} {report} h =
      let at' = ok_or (canonical_timestamp T completed) "" in
      let retry = ok_or (next_retry T (status_of outcome) at') none in
      elim (Option-cases (row_of db attempt.message.id)) [
        | inl gone ↦ ground arith
        | inr (row, found) ↦
            (let message : OutboxMessage =
                ok_or (load_outbox_message db attempt.message.id) attempt.message in
              (
                row,
                found,
                ground arith,
                elim (Option-cases row.attempt_id) [
                  | inl e ↦ ground arith
                  | inr (id, e) ↦ ground (arith, eq_iff id attempt.id)
                ],
                ground (
                  arith,
                  settle_conditions-notifications
                      (delivery_state_of (status_of outcome) message.transition) message
                      (close db attempt attempt.message.id outcome at' retry),
                ),
              ))
      ]

  -- Recording the outcome of an attempt moves one row, that of the message, from in flight to the
  -- status of the outcome, and adds no row; the row keeps its content and its age, and every other
  -- row stays as it was, in a table whose ids are distinct.
  pub record-IsMove :
      (db : Database F V) (attempt : NotificationAttempt) (completed : String)
      (outcome : NotificationAttemptOutcome) {db' : Database F V} {report : NotificationReport}
      → IsKeyed db.notifications
      → record_notification_attempt T db attempt completed outcome ≡ ok (db', report)
      → IsMove attempt.message.id NotificationStatus.in_flight
          (ending outcome)
          db.notifications
          db'.notifications
  unfolding close
  record-IsMove db attempt completed outcome keyed h =
      let at' = ok_or (canonical_timestamp T completed) "" in
      let retry = ok_or (next_retry T (status_of outcome) at') none in
      let (row, found, flying, _, after) = record_cases db attempt completed outcome h in
      let (ahead, behind, old, moved, named) =
        update-split attempt.message.id (close_row outcome at' retry) db.notifications row keyed
          found in
      record {
        ahead = ahead;
        row = row;
        row' = close_row outcome at' retry row;
        behind = behind;
        old_rows = old;
        new_rows = after ∙ moved;
        named = named;
        begun = flying;
        ended = status_of_lem outcome;
        same = record {
          same_id = refl;
          same_run = refl;
          same_transition = refl;
          same_title = refl;
          same_message = refl;
          same_priority = refl;
          same_age = refl;
        };
      }

  -- A message that is claimed cannot be claimed again before the outcome of its attempt is
  -- recorded: no second send starts while one may be under way.
  pub begin_twice :
      (db : Database F V) (message again : OutboxMessage) (started run new : String)
      (later run' new' : String) {db' db'' : Database F V} {first second : NotificationAttempt}
      → begin_notification_attempt T db message started run new ≡ ok (db', first)
      → again.id ≡ message.id
      → begin_notification_attempt T db' again later run' new' ≢ ok (db'', second)
  unfolding claim
  begin_twice db message again started run new later run' new' {db'} h same h' =
      let (row, found, unsent, after) = begin_cases db message started run new h in
      let (row', found', unsent', _) = begin_cases db' again later run' new' h' in
      let f : Notification → Notification =
        λ n. record n { status = NotificationStatus.in_flight; attempt_id = some new } in
      let claimed_row = f row in
      let now : row_of db' message.id ≡ some claimed_row =
        subst (λ ns. find_by (λ n. n.id == message.id) ns ≡ some claimed_row) (sym after)
          (find-update message.id f db.notifications (λ n. refl) ∙ ap (Option.map f) found) in
      let one : some claimed_row ≡ some row' =
        sym now ∙ subst (λ k. row_of db' k ≡ some row') same found' in
      ground arith
