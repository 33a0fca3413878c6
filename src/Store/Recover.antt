-- ===== src/Store/Recover.antt =====
-- `recover_interrupted_attempts` and `refresh_run_delivery`.
use adguard_sentinel.Base.{
  String, Option, none, some, Bool, false, ◌&&◌, List, [], ◌∷◌, map, if◌then◌else◌, ◌==◌, str_leb,
  filter_by, find_by, sort_with, filter_map,
}
use adguard_sentinel.Base.Result.{Result, ok, err, ◌>>=◌}
use adguard_sentinel.Model.Condition.{ConditionState, AlertDeliveryState}
use adguard_sentinel.Model.Run.{DeliveryActivity, DeliveryAction}
use adguard_sentinel.Store.Tables.{
  Database, Notification, Attempt, NotificationAttempt, NotificationAttemptOutcome, EvaluationRow,
  StoreError, invalid_data, Timestamps, canonical_timestamp,
}
use adguard_sentinel.Store.Query.{is_in_flight, load_outbox_message, refresh_evaluation}
use adguard_sentinel.Store.Record.{record_notification_attempt}

abbrev pub created_first : Notification → Notification → Bool
created_first a b = str_leb a.created_at b.created_at

-- The greater of two texts, the second one where they are equal.
abbrev pub later_of : String → String → String
later_of a b = if str_leb a b then b else a

abbrev pub interruption : NotificationAttemptOutcome
interruption = NotificationAttemptOutcome.unknown "process_interrupted_after_possible_transmission"

abbrev episode_or_empty : {V : Type 0} → EvaluationRow V → String
episode_or_empty e = elim e.episode_id [ none ↦ "" | some ep ↦ ep ]

module _ {F V : Type 0} where
  unfoldable pub interrupted_rows : Database F V → List Notification
  interrupted_rows db =
      sort_with created_first (filter_by (λ n. is_in_flight n.status) db.notifications)

  -- The `LEFT JOIN`: the attempt that a row in flight names, if it is there.
  unfoldable pub attempt_of : Database F V → Notification → Option Attempt
  attempt_of db n = elim n.attempt_id [
    | none ↦ none
    | some id ↦ find_by (λ a. (a.id == id) && (a.notification_id == n.id)) db.attempts
  ]

  -- The body of the loop. `joined` is what the query had read of the row's attempt.
  unfoldable pub recover_one :
      Timestamps
      → String
      → Database F V
      → Notification × Option Attempt
      → Result StoreError (Database F V × DeliveryActivity)
  recover_one T recovered_at db (n, none) = elim n.attempt_id [
    | none ↦ err (invalid_data "in-flight notification has no attempt")
    | some _ ↦ err (invalid_data "in-flight notification has no durable start")
  ]
  recover_one T recovered_at db (n, some a) = do
    message ← load_outbox_message db n.id
    let attempt : NotificationAttempt = record {
      message = message;
      id = a.id;
      started_at = a.started_at;
      executing_run_id = a.executing_run_id;
    }
    recorded ←
        record_notification_attempt T db attempt (later_of recovered_at a.started_at) interruption
    ok (
      recorded.0,
      record {
        attempt_id = a.id;
        origin_run_id = message.run_id;
        action = DeliveryAction.recovered;
        notification = recorded.1;
      },
    )

  -- Each message is a transaction of its own: an error keeps what was recovered before it.
  unfoldable pub recover_all :
      Timestamps
      → String
      → Database F V
      → List (Notification × Option Attempt)
      → Database F V × Result StoreError (List DeliveryActivity)
  recover_all T recovered_at db [] = (db, ok [])
  recover_all T recovered_at db (row ∷ rows) = elim (recover_one T recovered_at db row) [
    | err e ↦ (db, err e)
    | ok (db', activity) ↦
        (let (db'', rest) = recover_all T recovered_at db' rows in
          (db'', (do activities ← rest; ok (activity ∷ activities))))
  ]

  unfoldable pub recover_interrupted_attempts :
      Timestamps → Database F V → String → Database F V × Result StoreError (List DeliveryActivity)
  unfolding recover_all
  recover_interrupted_attempts T db recovered_at = elim (canonical_timestamp T recovered_at) [
    | err e ↦ (db, err e)
    | ok recovered ↦
        recover_all T recovered db (map (λ n. (n, attempt_of db n)) (interrupted_rows db))
  ]

  -- The `JOIN` of `refresh_run_delivery`: an evaluation of the run whose condition is still in the
  -- same episode, with the delivery state of that episode.
  unfoldable pub current_delivery :
      Database F V → EvaluationRow V → Option (EvaluationRow V × AlertDeliveryState)
  current_delivery db e = elim e.episode_id [
    | none ↦ none
    | some episode ↦
        elim (find_by
          (λ s.
            (s.id == e.condition_id)
            && elim s.episode_id [ none ↦ false | some ep ↦ ep == episode ])
          db.states) [ none ↦ none | some s ↦ some (e, ConditionState.alert_delivery_state s) ]
  ]

  unfoldable pub refresh_all :
      Database F V → String → List (EvaluationRow V × AlertDeliveryState) → Database F V
  refresh_all db run_id [] = db
  refresh_all db run_id ((e, d) ∷ rows) =
      refresh_all (refresh_evaluation db run_id e.condition_id (episode_or_empty e) d) run_id rows

  unfoldable pub refresh_run_delivery : Database F V → String → Database F V
  unfolding refresh_all current_delivery
  refresh_run_delivery db run_id =
      refresh_all db run_id
        (filter_map (current_delivery db) (filter_by (λ e. e.run_id == run_id) db.evaluations))
