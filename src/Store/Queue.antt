-- ===== src/Store/Queue.antt =====
-- `insert_outbox`: the messages of a run, with their members.
use adguard_sentinel.Base.{String, none, Bool, ◌&&◌, List, [], ◌∷◌, ◌==◌, find_by}
use adguard_sentinel.Base.Result.{Result, ok, ◌>>=◌}
use adguard_sentinel.Model.Condition.{ConditionState, ConditionTransition, same_kind}
use adguard_sentinel.Model.Run.{OutboxMessage}
use adguard_sentinel.Store.Tables.{Database, Notification, Member, StoreError}
use adguard_sentinel.Store.Query.{required}
use adguard_sentinel.Store.Cooldown.{found_or}
use adguard_sentinel.Store.Persist.{insert_row}

abbrev pub same_id : Notification → Notification → Bool
same_id a b = a.id == b.id

abbrev pub same_member : Member → Member → Bool
same_member a b = (a.notification_id == b.notification_id) && (a.condition_id == b.condition_id)

unfoldable pub row_of_message : String → OutboxMessage → Notification
row_of_message created_at m = record {
  id = m.id;
  run_id = m.run_id;
  transition = m.transition;
  title = m.title;
  message = m.message;
  priority = m.priority;
  status = m.status;
  created_at = created_at;
  next_retry_at = none;
  delivered_at = none;
  remote_request_id = none;
  error_class = none;
  attempt_id = none;
}

-- The member that a message has for one condition: the transition's summary, the latch's episode.
unfoldable pub member_of :
    List ConditionState
    → List ConditionTransition
    → OutboxMessage
    → String
    → Result StoreError Member
member_of states transitions message condition_id = do
  transition ← found_or "notification member lacks its transition" (
      find_by (λ t. (t.condition_id == condition_id) && same_kind t.kind message.transition)
        transitions)
  state ← required (find_by (λ s. s.id == condition_id) states)
  episode ← found_or "notification member lacks its episode" (ConditionState.episode_id state)
  ok (record {
    notification_id = message.id;
    condition_id = condition_id;
    episode_id = episode;
    summary = ConditionTransition.summary transition;
  })

unfoldable pub insert_members :
    List ConditionState
    → List ConditionTransition
    → OutboxMessage
    → List String
    → List Member
    → Result StoreError (List Member)
unfolding member_of insert_row
insert_members states transitions message [] table = ok table
insert_members states transitions message (condition_id ∷ ids) table = do
  member ← member_of states transitions message condition_id
  table' ← insert_row same_member member table
  insert_members states transitions message ids table'

module _ {F V : Type 0} where
  unfoldable pub insert_message :
      String
      → List ConditionTransition
      → Database F V
      → OutboxMessage
      → Result StoreError (Database F V)
  unfolding insert_members insert_row row_of_message
  insert_message created_at transitions db message = do
    notifications ← insert_row same_id (row_of_message created_at message) db.notifications
    members ←
        insert_members db.states transitions message (OutboxMessage.condition_ids message)
          db.members
    ok (record db { notifications = notifications; members = members })

  unfoldable pub insert_outbox :
      String
      → List ConditionTransition
      → Database F V
      → List OutboxMessage
      → Result StoreError (Database F V)
  unfolding insert_message
  insert_outbox created_at transitions db [] = ok db
  insert_outbox created_at transitions db (message ∷ messages) = do
    db' ← insert_message created_at transitions db message
    insert_outbox created_at transitions db' messages
