-- ===== src/Outbox/Bounds.antt =====
-- What `build_outbox` promises: the transitions of a run, cut into messages that fit.
use adguard_sentinel.Base.{
  ℕ, ◌+◌, ◌≤◌, ◌≡◌, ◌≢◌, refl, sym, ap, ◌∙◌, subst, String, count, Bool, false, not, ◌&&◌, List, [],
  ◌∷◌, ◌++◌, append-nil, append_assoc, arith, ltb, if◌then◌else◌, is_empty, filter_by, join,
  Bool-cases, inl, inr,
}
use adguard_sentinel.Model.Condition.{ConditionTransition, TransitionKind, same_kind}
use adguard_sentinel.Model.Run.{OutboxMessage}
use adguard_sentinel.Outbox.Batch.{
  Batching, message_limit, notification_line, flush, batch_step, batch_loop, batch_kind,
  build_outbox,
}
use adguard_sentinel.Outbox.Batching.{
  nothing, message, Covers, IsBatching, lines-is_empty, add_line-IsBatching, is_empty-snoc,
  held_some, room_left, room_after_flush,
}

module _ (uuid : ℕ → String) (run_id : String) (suppressed : Bool) where
  flush-IsBatching :
      (kind : TransitionKind) (b : Batching) (done pending : List ConditionTransition)
      → pending ≢ []
      → IsBatching b done pending
      → IsBatching (flush uuid run_id suppressed kind b) (done ++ pending) []
  unfolding flush join
  flush-IsBatching kind b done pending some_held h = record {
    sent =
        message b.messages _ done pending h.sent
          (record {
            named = h.held_ids;
            worded = ap (join "\n") h.held_lines;
            short = subst (λ n. n ≤ message_limit) h.measured h.fits;
            inhabited = some_held;
          })
          refl refl;
    held_ids = refl;
    held_lines = refl;
    measured = refl;
    fits = omega arith;
  }

  batch_step-IsBatching :
      (kind : TransitionKind) (b : Batching) (t : ConditionTransition)
      (done pending : List ConditionTransition)
      → IsBatching b done pending
      → (done' pending' : List ConditionTransition) × (IsBatching
          (batch_step uuid run_id suppressed kind b t)
          done'
          pending')
        × (done' ++ pending' ≡ (done ++ pending) ++ t ∷ [])
        × (is_empty pending' ≡ false)
  unfolding batch_step
  batch_step-IsBatching kind b t done pending h =
      elim (Bool-cases (
        not (is_empty b.lines)
        && ltb message_limit (b.length_so_far + 1 + count (notification_line t.summary)))) [
          | inl full ↦ rw full (
            done ++ pending,
            t ∷ [],
            add_line-IsBatching (flush uuid run_id suppressed kind b) t (done ++ pending) []
                (flush-IsBatching kind b done pending (held_some b t done pending h full) h)
                (room_after_flush t),
            refl,
            refl,
          )
          | inr room ↦ rw room (
            done,
            pending ++ t ∷ [],
            add_line-IsBatching b t done pending h (room_left b t done pending h room),
            sym (append_assoc done pending (t ∷ [])),
            is_empty-snoc pending t,
          )
        ]

  batch_loop-IsBatching :
      (kind : TransitionKind) (b : Batching) (ts done pending : List ConditionTransition)
      → IsBatching b done pending
      → (done' pending' : List ConditionTransition) × (IsBatching
          (batch_loop uuid run_id suppressed kind b ts)
          done'
          pending')
        × (done' ++ pending' ≡ (done ++ pending) ++ ts)
  unfolding batch_loop
  batch_loop-IsBatching kind b [] done pending h =
      (done, pending, h, sym (append-nil (done ++ pending)))
  batch_loop-IsBatching kind b (t ∷ ts) done pending h =
      let (d, p, h', e, _) = batch_step-IsBatching kind b t done pending h in
      let (d', p', h'', e') =
        batch_loop-IsBatching kind (batch_step uuid run_id suppressed kind b t) ts d p h' in
      (d', p', h'', e' ∙ ap (λ xs. xs ++ ts) e ∙ append_assoc (done ++ pending) (t ∷ []) ts)

  abbrev of_kind : TransitionKind → List ConditionTransition → List ConditionTransition
  of_kind kind = filter_by (λ t. same_kind t.kind kind)

  close_batch :
      (kind : TransitionKind) (b : Batching) (done pending : List ConditionTransition)
      → IsBatching b done pending
      → Covers
          (if not (is_empty b.lines)
            then (flush uuid run_id suppressed kind b).messages
            else b.messages)
          (done ++ pending)
  close_batch kind b done [] h = rw (lines-is_empty b done [] h, append-nil done) h.sent
  close_batch kind b done (t ∷ ts) h =
      rw (lines-is_empty b done (t ∷ ts) h) (flush-IsBatching kind b done (t ∷ ts) (λ e. cc) h).sent

  batch_kind-Covers :
      (kind : TransitionKind) (messages : List OutboxMessage) (ts done : List ConditionTransition)
      → Covers messages done
      → Covers (batch_kind uuid run_id suppressed kind messages ts) (done ++ of_kind kind ts)
  unfolding batch_kind join
  batch_kind-Covers kind messages ts done h =
      let start : Batching = record {
        messages = messages;
        lines = [];
        condition_ids = [];
        length_so_far = 0;
      } in
      let (d, p, h', e) = batch_loop-IsBatching kind start (of_kind kind ts) done [] (record {
        sent = h;
        held_ids = refl;
        held_lines = refl;
        measured = refl;
        fits = omega arith;
      }) in
      subst (Covers (batch_kind uuid run_id suppressed kind messages ts))
        (e ∙ ap (λ xs. xs ++ of_kind kind ts) (append-nil done))
        (close_batch kind (batch_loop uuid run_id suppressed kind start (of_kind kind ts)) d p h')

  -- The messages of a run carry all of its alerts and then all of its resolutions, in the order of
  -- the transitions: each transition stands in one message, with its identifier and its whole line,
  -- and no message is empty or longer than 1024 characters.
  pub build_outbox-Covers :
      (ts : List ConditionTransition)
      → Covers
          (build_outbox uuid run_id suppressed ts)
          (of_kind TransitionKind.alert ts ++ of_kind TransitionKind.resolution ts)
  unfolding build_outbox
  build_outbox-Covers ts =
      batch_kind-Covers TransitionKind.resolution _ ts (of_kind TransitionKind.alert ts)
        (batch_kind-Covers TransitionKind.alert [] ts [] nothing)
