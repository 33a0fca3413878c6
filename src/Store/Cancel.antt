-- ===== src/Store/Cancel.antt =====
-- `cancel_unsent_condition`: the messages of a condition that nobody has sent yet.
use adguard_sentinel.Base.{
  String, Option, none, some, Bool, true, not, ◌&&◌, List, [], ◌∷◌, ◌++◌, map, if◌then◌else◌, ◌==◌,
  str_leb, filter_by, sort_with, update_where, any, is_empty, join,
}
use adguard_sentinel.Model.Condition.{TransitionKind, same_kind}
use adguard_sentinel.Model.Run.{NotificationStatus}
use adguard_sentinel.Outbox.Batch.{notification_line}
use adguard_sentinel.Store.Tables.{Database, Notification, Member}
use adguard_sentinel.Store.Query.{is_unsent, notification_members}

-- `?2 IS NULL OR n.transition = ?2`.
abbrev pub wanted_kind : Option TransitionKind → TransitionKind → Bool
wanted_kind none k = true
wanted_kind (some k') k = same_kind k k'

abbrev pub created_first : Notification → Notification → Bool
created_first a b = str_leb a.created_at b.created_at

abbrev pub cancelled_row : Notification → Notification
cancelled_row n = record n { status = NotificationStatus.cancelled; next_retry_at = none }

-- `INSERT ... SELECT ... FROM notification_outbox WHERE id = ?1`.
abbrev pub replacement : String → String → Notification → Notification
replacement new payload n = record {
  id = new;
  run_id = n.run_id;
  transition = n.transition;
  title = n.title;
  message = payload;
  priority = n.priority;
  status = n.status;
  created_at = n.created_at;
  next_retry_at = n.next_retry_at;
  delivered_at = none;
  remote_request_id = none;
  error_class = none;
  attempt_id = none;
}

module _ {F V : Type 0} where
  abbrev pub names_condition : Database F V → String → Notification → Bool
  names_condition db condition_id n =
      any (λ m. (m.notification_id == n.id) && (m.condition_id == condition_id)) db.members

  -- The query: (notification_id, condition_id) is the key of the members, so that the join lists
  -- each message once.
  unfoldable pub unsent_of : Database F V → String → Option TransitionKind → List String
  unsent_of db condition_id kind =
      map (λ n. n.id)
        (sort_with created_first (
          filter_by
            (λ n.
              is_unsent n.status
              && wanted_kind kind n.transition
              && names_condition db condition_id n)
            db.notifications))

  unfoldable pub survivors_of : Database F V → String → String → List Member
  survivors_of db condition_id id =
      filter_by (λ m. not (m.condition_id == condition_id)) (notification_members db id)

  -- A replacement with the surviving members; `new` is its `Uuid::new_v4`.
  unfoldable pub replace_message : Database F V → String → String → List Member → Database F V
  replace_message db id new survivors =
      let payload = join "\n" (map (λ m. notification_line m.summary) survivors) in
      record db {
        notifications =
            db.notifications
            ++ map (replacement new payload) (filter_by (λ n. n.id == id) db.notifications);
        members =
            db.members ++ map {A = Member} (λ m. record m { notification_id = new }) survivors;
      }

  unfoldable pub cancel_message : (String → String) → String → Database F V → String → Database F V
  unfolding survivors_of replace_message
  cancel_message uuid condition_id db id =
      let survivors = survivors_of db condition_id id in
      let db' =
        if not (is_empty survivors) then replace_message db id (uuid id) survivors else db in
      record db' { notifications = update_where (λ n. n.id == id) cancelled_row db'.notifications }

  unfoldable pub cancel_messages :
      (String → String) → String → Database F V → List String → Database F V
  unfolding cancel_message
  cancel_messages uuid condition_id db [] = db
  cancel_messages uuid condition_id db (id ∷ ids) =
      cancel_messages uuid condition_id (cancel_message uuid condition_id db id) ids

  unfoldable pub cancel_unsent_condition :
      (String → String) → Database F V → String → Option TransitionKind → Database F V
  unfolding cancel_messages
  cancel_unsent_condition uuid db condition_id kind =
      cancel_messages uuid condition_id db (unsent_of db condition_id kind)
