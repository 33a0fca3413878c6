-- ===== src/Store/Query.antt =====
-- The queries that several operations share, and `pending_outbox`.
use adguard_sentinel.Base.{
  String, Option, none, some, Bool, true, false, not, ◌&&◌, ◌||◌, List, [], ◌∷◌, map, if◌then◌else◌,
  ◌==◌, str_leb, filter_by, find_by, sort_with, update_where, any,
}
use adguard_sentinel.Base.Result.{Result, ok, err, ◌>>=◌}
use adguard_sentinel.Model.Condition.{is_alert, AlertDeliveryState}
use adguard_sentinel.Model.Run.{NotificationStatus, OutboxMessage, DeliveryActivity}
use adguard_sentinel.Store.Tables.{
  Database, Notification, Member, RunRow, StoreError, sqlite, query_returned_no_rows, Timestamps,
  canonical_timestamp,
}

-- `status IN ('pending', 'retryable')`.
abbrev pub is_unsent : NotificationStatus → Bool
is_unsent NotificationStatus.pending = true
is_unsent NotificationStatus.retryable = true
is_unsent _ = false

abbrev pub is_in_flight : NotificationStatus → Bool
is_in_flight NotificationStatus.in_flight = true
is_in_flight _ = false

abbrev pub is_retryable : NotificationStatus → Bool
is_retryable NotificationStatus.retryable = true
is_retryable _ = false

abbrev pub is_delivered_status : NotificationStatus → Bool
is_delivered_status NotificationStatus.delivered = true
is_delivered_status _ = false

abbrev by_condition : Member → Member → Bool
by_condition a b = str_leb a.condition_id b.condition_id

-- `ORDER BY created_at ASC, CASE transition WHEN 'alert' THEN 0 ELSE 1 END ASC, rowid ASC`.
abbrev pub by_age : Notification → Notification → Bool
by_age a b =
    if str_leb a.created_at b.created_at
    then (if str_leb b.created_at a.created_at
        then is_alert a.transition || not (is_alert b.transition)
        else true)
    else false

-- A row that the query must find.
abbrev pub required {ℓ} : {A : Type ℓ} → Option A → Result StoreError A
required none = err (sqlite query_returned_no_rows)
required (some a) = ok a

-- `next_retry_at IS NULL OR next_retry_at <= now`.
abbrev pub is_due : String → Notification → Bool
is_due now n = elim n.next_retry_at [ none ↦ true | some retry ↦ str_leb retry now ]

abbrev pub is_eligible : String → Notification → Bool
is_eligible now n = is_unsent n.status && is_due now n

abbrev upsert_activity : DeliveryActivity → List DeliveryActivity → List DeliveryActivity
upsert_activity a [] = a ∷ []
upsert_activity a (b ∷ bs) =
    if b.attempt_id == a.attempt_id then a ∷ bs else b ∷ upsert_activity a bs

module _ {F V : Type 0} where
  -- `notification_members`.
  unfoldable pub notification_members : Database F V → String → List Member
  notification_members db id =
      sort_with by_condition (filter_by (λ m. m.notification_id == id) db.members)

  unfoldable pub load_notification_conditions : Database F V → String → List String
  unfolding notification_members
  load_notification_conditions db id = map (λ m. m.condition_id) (notification_members db id)

  unfoldable pub message_of : Database F V → Notification → OutboxMessage
  message_of db n = record {
    id = n.id;
    run_id = n.run_id;
    transition = n.transition;
    title = n.title;
    message = n.message;
    priority = n.priority;
    status = n.status;
    condition_ids = load_notification_conditions db n.id;
  }

  abbrev pub row_of : Database F V → String → Option Notification
  row_of db id = find_by (λ n. n.id == id) db.notifications

  unfoldable pub load_outbox_message : Database F V → String → Result StoreError OutboxMessage
  load_outbox_message db id = do
    row ← required (row_of db id)
    ok (record (message_of db row) { id = id; condition_ids = load_notification_conditions db id })

  -- The rows that `pending_outbox` returns, in its order.
  unfoldable pub pending_rows : Database F V → String → List Notification
  pending_rows db now = sort_with by_age (filter_by (is_eligible now) db.notifications)

  unfoldable pub pending_outbox :
      Timestamps → Database F V → String → Result StoreError (List OutboxMessage)
  pending_outbox T db now = do
    canonical ← canonical_timestamp T now
    ok (map (message_of db) (pending_rows db canonical))

  -- `refresh_evaluation`.
  unfoldable pub refresh_evaluation :
      Database F V → String → String → String → AlertDeliveryState → Database F V
  refresh_evaluation db run_id condition_id episode state =
      if any
        (λ e.
          (e.run_id == run_id)
          && (e.condition_id == condition_id)
          && elim e.episode_id [ none ↦ false | some ep ↦ ep == episode ])
        db.evaluations
      then record db {
        evaluations =
            update_where (λ e. (e.run_id == run_id) && (e.condition_id == condition_id))
              (λ e. record e { evaluation = record (e.evaluation) { notification_state = state } })
              db.evaluations;
      }
      else db

  -- `record_delivery_activity`.
  unfoldable pub record_delivery_activity :
      Database F V → String → DeliveryActivity → Result StoreError (Database F V)
  record_delivery_activity db run_id activity = do
    _ ← required (find_by (λ r. r.id == run_id) db.runs)
    ok (record db {
      runs =
          update_where (λ r. r.id == run_id)
            (λ r. record r { delivery_activity = upsert_activity activity r.delivery_activity })
            db.runs;
    })

-- `SELECT MAX(completed_at) FROM runs`.
abbrev latest_of : Option String → List RunRow → Option String
latest_of best [] = best
latest_of best (r ∷ rs) =
    latest_of
      (elim best [
        | none ↦ some r.completed_at
        | some b ↦ some (if str_leb b r.completed_at then r.completed_at else b)
      ])
      rs

unfoldable pub latest_completed : List RunRow → Option String
latest_completed rs = latest_of none rs
