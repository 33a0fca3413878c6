-- ===== src/Outbox/Pending.antt =====
-- The status that the messages of a run begin with.
use adguard_sentinel.Base.{
  ℕ, ◌+◌, ◌≡◌, refl, String, false, not, ◌&&◌, List, [], ◌∷◌, ltb, count, is_empty, filter_by, All,
  All-append, Bool-cases, inl, inr,
}
use adguard_sentinel.Model.Condition.{ConditionTransition, TransitionKind, same_kind}
use adguard_sentinel.Model.Run.{OutboxMessage, NotificationStatus}
use adguard_sentinel.Outbox.Batch.{
  Batching, notification_line, notification_batch, flush, add_line, batch_step, batch_loop,
  batch_kind, build_outbox, message_limit,
}

abbrev pub IsPending : OutboxMessage → Type 0
IsPending m = m.status ≡ NotificationStatus.pending

module _ (uuid : ℕ → String) (run_id : String) where
  flush-IsPending :
      (kind : TransitionKind) (b : Batching)
      → All IsPending b.messages
      → All IsPending (flush uuid run_id false kind b).messages
  unfolding flush notification_batch
  flush-IsPending kind b h = All-append IsPending b.messages _ h (refl, tt)

  batch_step-IsPending :
      (kind : TransitionKind) (b : Batching) (t : ConditionTransition)
      → All IsPending b.messages
      → All IsPending (batch_step uuid run_id false kind b t).messages
  unfolding batch_step add_line
  batch_step-IsPending kind b t h =
      elim (Bool-cases (
        not (is_empty b.lines)
        && ltb message_limit (b.length_so_far + 1 + count (notification_line t.summary)))) [
          | inl full ↦ rw full (flush-IsPending kind b h)
          | inr room ↦ rw room h
        ]

  batch_loop-IsPending :
      (kind : TransitionKind) (b : Batching) (ts : List ConditionTransition)
      → All IsPending b.messages
      → All IsPending (batch_loop uuid run_id false kind b ts).messages
  unfolding batch_loop
  batch_loop-IsPending kind b [] h = h
  batch_loop-IsPending kind b (t ∷ ts) h =
      batch_loop-IsPending kind (batch_step uuid run_id false kind b t) ts
        (batch_step-IsPending kind b t h)

  batch_kind-IsPending :
      (kind : TransitionKind) (messages : List OutboxMessage) (ts : List ConditionTransition)
      → All IsPending messages
      → All IsPending (batch_kind uuid run_id false kind messages ts)
  unfolding batch_kind
  batch_kind-IsPending kind messages ts h =
      let start : Batching = record {
        messages = messages;
        lines = [];
        condition_ids = [];
        length_so_far = 0;
      } in
      let b = batch_loop uuid run_id false kind start (filter_by (λ t. same_kind t.kind kind) ts) in
      let k = batch_loop-IsPending kind start (filter_by (λ t. same_kind t.kind kind) ts) h in
      elim (Bool-cases (not (is_empty b.lines))) [
        | inl open_batch ↦ rw open_batch (flush-IsPending kind b k)
        | inr done ↦ rw done k
      ]

  -- A run that does not suppress its notifications makes pending messages.
  pub build_outbox-IsPending :
      (ts : List ConditionTransition) → All IsPending (build_outbox uuid run_id false ts)
  unfolding build_outbox
  build_outbox-IsPending ts =
      batch_kind-IsPending TransitionKind.resolution _ ts
        (batch_kind-IsPending TransitionKind.alert [] ts tt)
