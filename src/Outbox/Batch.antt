-- ===== src/Outbox/Batch.antt =====
-- `build_outbox`, `notification_line` and `notification_batch`.
use adguard_sentinel.Base.{
  ℕ, ◌+◌, ◌-◌, String, ◌<>◌, count, Bool, not, ◌&&◌, List, [], ◌∷◌, ◌++◌, ltb, leb, if◌then◌else◌,
  is_empty, filter_by, length, join, take_chars,
}
use adguard_sentinel.Base.Int.{pos, negsuc}
use adguard_sentinel.Model.Condition.{ConditionTransition, TransitionKind, is_alert, same_kind}
use adguard_sentinel.Model.Run.{OutboxMessage, NotificationStatus}

abbrev pub message_limit : ℕ
message_limit = 1024

abbrev pub suffix : String
suffix = " [truncated; see report]"

-- `transition_order`.
unfoldable pub transition_order : TransitionKind → ℕ
transition_order kind = if is_alert kind then 0 else 1

unfoldable pub truncate_chars : String → ℕ → String
truncate_chars value maximum = take_chars maximum value

unfoldable pub notification_line : String → String
unfolding truncate_chars
notification_line summary =
    let line = "- " <> summary in
    if leb (count line) message_limit
    then line
    else truncate_chars line (message_limit - count suffix) <> suffix

-- `Uuid::new_v4` is the parameter `uuid`: the identifier of the n-th message of the run.
module _ (uuid : ℕ → String) (run_id : String) (suppressed : Bool) where
  unfoldable pub notification_batch : ℕ → TransitionKind → List String → List String → OutboxMessage
  notification_batch n kind lines condition_ids = record {
    id = uuid n;
    run_id = run_id;
    transition = kind;
    title = if is_alert kind then "AdGuard anomaly detected" else "AdGuard anomaly resolved";
    message = join "\n" lines;
    priority = if is_alert kind then pos 0 else negsuc 0;
    status = if suppressed then NotificationStatus.suppressed else NotificationStatus.pending;
    condition_ids = condition_ids;
  }

-- The variables of the loops.
pub record Batching : Type 0 where
  pub messages : List OutboxMessage
  pub lines : List String
  pub condition_ids : List String
  pub length_so_far : ℕ

-- The end of the loop's body: the line joins the batch.
unfoldable pub add_line : Batching → String → String → Batching
add_line b line condition_id = record b {
  length_so_far =
      (if not (is_empty b.lines) then b.length_so_far + 1 else b.length_so_far) + count line;
  lines = b.lines ++ line ∷ [];
  condition_ids = b.condition_ids ++ condition_id ∷ [];
}

module _ (uuid : ℕ → String) (run_id : String) (suppressed : Bool) where
  unfoldable pub flush : TransitionKind → Batching → Batching
  unfolding notification_batch
  flush kind b = record {
    messages =
        b.messages
        ++ notification_batch uuid run_id suppressed (length b.messages) kind b.lines
            b.condition_ids
          ∷ [];
    lines = [];
    condition_ids = [];
    length_so_far = 0;
  }

  unfoldable pub batch_step : TransitionKind → Batching → ConditionTransition → Batching
  unfolding flush add_line notification_line
  batch_step kind b t =
      let line = notification_line t.summary in
      add_line
        (if not (is_empty b.lines) && ltb message_limit (b.length_so_far + 1 + count line)
          then flush kind b
          else b)
        line t.condition_id

  unfoldable pub batch_loop : TransitionKind → Batching → List ConditionTransition → Batching
  unfolding batch_step
  batch_loop kind b [] = b
  batch_loop kind b (t ∷ ts) = batch_loop kind (batch_step kind b t) ts

  -- The body of `for kind in [Alert, Resolution]`.
  unfoldable pub batch_kind :
      TransitionKind → List OutboxMessage → List ConditionTransition → List OutboxMessage
  unfolding batch_loop flush
  batch_kind kind messages transitions =
      let b =
        batch_loop kind
          (record { messages = messages; lines = []; condition_ids = []; length_so_far = 0 })
          (filter_by (λ t. same_kind t.kind kind) transitions) in
      if not (is_empty b.lines) then (flush kind b).messages else b.messages

  unfoldable pub build_outbox : List ConditionTransition → List OutboxMessage
  unfolding batch_kind
  build_outbox transitions =
      batch_kind TransitionKind.resolution (batch_kind TransitionKind.alert [] transitions)
        transitions
