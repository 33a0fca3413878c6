-- ===== src/Store/Queued.antt =====
-- The messages of a run that commits are queued for delivery.
use adguard_sentinel.Base.{
  ℕ, ◌≡◌, refl, sym, ap, ◌∙◌, subst, String, Bool, true, false, not, ◌&&◌, ◌||◌, List, [], ◌∷◌, map,
  arith, ◌==◌, eq_refl, any, any-append, filter_by, sort_with, All, All-imp, Bool-cases, inl, inr,
}
use adguard_sentinel.Base.Order.{any-sort_with}
use adguard_sentinel.Base.Float.{Float}
use adguard_sentinel.Base.Int.{ℤ}
use adguard_sentinel.Base.Result.{ok, ok-injective, >>=-ok}
use adguard_sentinel.Config.Types.{Config}
use adguard_sentinel.Model.Condition.{ConditionTransition}
use adguard_sentinel.Model.Run.{OutboxMessage, RunReport}
use adguard_sentinel.Outbox.Pending.{IsPending, build_outbox-IsPending}
use adguard_sentinel.Store.Tables.{Database, Notification, Timestamps, canonical_timestamp}
use adguard_sentinel.Store.Query.{is_eligible, by_age, message_of, pending_rows, pending_outbox}
use adguard_sentinel.Store.Prune.{is_undelivered, prune_runs}
use adguard_sentinel.Store.Queue.{same_id, row_of_message, insert_message, insert_outbox}
use adguard_sentinel.Store.Persist.{insert_row}
use adguard_sentinel.Store.Kept.{prune_runs-owed}
use adguard_sentinel.Store.Commit.{by_transition}
use adguard_sentinel.Store.Run.{fill, fill_run, commit_run}
use adguard_sentinel.Store.Committed.{commit_run-Steps}

-- The row says what the message says, under its id and of its run.
abbrev is_row_of : OutboxMessage → Notification → Bool
is_row_of m n =
    (n.id == m.id) && (n.run_id == m.run_id) && (n.title == m.title) && (n.message == m.message)

-- The two messages have one id and one run, and say the same.
abbrev pub same_message : OutboxMessage → OutboxMessage → Bool
same_message m p =
    (p.id == m.id) && (p.run_id == m.run_id) && (p.title == m.title) && (p.message == m.message)

-- The row of a message is there, and due at a time.
abbrev is_queued : String → OutboxMessage → Notification → Bool
is_queued now m n = is_row_of m n && is_eligible now n

insert_row-any {ℓ} :
    {A : Type ℓ} (same : A → A → Bool) (p : A → Bool) (row : A) (rows rows' : List A)
    → insert_row same row rows ≡ ok rows'
    → any p rows' ≡ (any p rows || p row)
unfolding insert_row
insert_row-any same p row rows rows' h = ground (arith, any-append p rows (row ∷ []))

module _ {F V : Type 0} (created : String) (ts : List ConditionTransition) where
  insert_message-any :
      (p : Notification → Bool) (db db' : Database F V) (m : OutboxMessage)
      → insert_message created ts db m ≡ ok db'
      → any p db'.notifications ≡ (any p db.notifications || p (row_of_message created m))
  unfolding insert_message
  insert_message-any p db db' m h =
      let (rows, found, rest) =
        >>=-ok (insert_row same_id (row_of_message created m) db.notifications) _ db' h in
      ground
        (arith, insert_row-any same_id p (row_of_message created m) db.notifications rows found)

  insert_outbox-any :
      (p : Notification → Bool) (db db' : Database F V) (ms : List OutboxMessage)
      → insert_outbox created ts db ms ≡ ok db'
      → any p db.notifications ≡ true
      → any p db'.notifications ≡ true
  unfolding insert_outbox
  insert_outbox-any p db db' [] h k = ground arith
  insert_outbox-any p db db' (m ∷ ms) h k =
      let (mid, first, rest) = >>=-ok (insert_message created ts db m) _ db' h in
      insert_outbox-any p mid db' ms rest (ground (arith, insert_message-any p db mid m first))

  insert_outbox-queued :
      (now : String) (db db' : Database F V) (ms : List OutboxMessage)
      → insert_outbox created ts db ms ≡ ok db'
      → All IsPending ms
      → All (λ m. any (is_queued now m) db'.notifications ≡ true) ms
  unfolding insert_outbox row_of_message
  insert_outbox-queued now db db' [] h k = tt
  insert_outbox-queued now db db' (m ∷ ms) h k =
      let (mid, first, rest) = >>=-ok (insert_message created ts db m) _ db' h in
      (
        insert_outbox-any (is_queued now m) mid db' ms rest (
            ground (
              arith,
              eq_refl m.id,
              eq_refl m.run_id,
              eq_refl m.title,
              eq_refl m.message,
              insert_message-any (is_queued now m) db mid m first,
            )),
        insert_outbox-queued now mid db' ms rest k.1,
      )

-- A test that implies another one does not see what that one filters out.
any-filter_by :
    (p q : Notification → Bool) (ns : List Notification)
    → ((n : Notification) → (p n && not (q n)) ≡ false)
    → any p (filter_by q ns) ≡ any p ns
any-filter_by p q [] h = refl
any-filter_by p q (n ∷ ns) h = ground (arith, h n, any-filter_by p q ns h)

pruned-queued :
    {F V : Type 0} (db : Database F V) (cutoff now : String) (m : OutboxMessage)
    → any (is_queued now m) (prune_runs db cutoff).notifications
      ≡ any (is_queued now m) db.notifications
pruned-queued db cutoff now m =
    let u : Notification → Bool = λ n. is_undelivered n.status in
    let weak =
      λ (ns : List Notification). any-filter_by (is_queued now m) u ns (λ n. ground arith) in
    sym (weak (prune_runs db cutoff).notifications)
    ∙ ap (any (is_queued now m)) (prune_runs-owed db cutoff)
    ∙ weak db.notifications

due_listed :
    (now : String) (m : OutboxMessage) (ns : List Notification)
    → any (is_queued now m) ns ≡ true
    → any (is_row_of m) (filter_by (is_eligible now) ns) ≡ true
due_listed now m [] h = h
due_listed now m (n ∷ ns) h = elim (Bool-cases (is_eligible now n)) [
  | inl due ↦ ground (arith, due_listed now m ns)
  | inr not_due ↦ ground (arith, due_listed now m ns)
]

messages-any :
    {F V : Type 0} (db : Database F V) (m : OutboxMessage) (ns : List Notification)
    → any (same_message m) (map (message_of db) ns) ≡ any (is_row_of m) ns
unfolding message_of
messages-any db m [] = refl
messages-any db m (n ∷ ns) = ground (arith, messages-any db m ns)

pending_rows-any :
    {F V : Type 0} (db : Database F V) (now : String) (m : OutboxMessage)
    → any (is_queued now m) db.notifications ≡ true
    → any (same_message m) (map (message_of db) (pending_rows db now)) ≡ true
unfolding pending_rows
pending_rows-any db now m h =
    messages-any db m (pending_rows db now)
    ∙ any-sort_with (is_row_of m) by_age (filter_by (is_eligible now) db.notifications)
    ∙ due_listed now m db.notifications h

module _ (T : Timestamps) (fl : Float) (uuid : ℕ → String) (fresh : String → String)
    {V : Type 0} where
  open fl use {F}

  -- Every message of a run that commits without suppressing its notifications is among the messages
  -- that `pending_outbox` hands out afterwards, with its id, its
  -- run, its title and its text, whatever the time and the retention.
  pub commit_run-pending :
      (db : Database F V) (report : RunReport F V) (config : Config) (now : ℤ) (retention : String)
      (out : Database F V × RunReport F V × List OutboxMessage) (later : String)
      (pending : List OutboxMessage)
      → commit_run T fl uuid fresh db report config now retention false ≡ ok out
      → pending_outbox T out.0 later ≡ ok pending
      → All (λ m. any (same_message m) pending ≡ true) out.2
  unfolding pending_outbox fill_run fill
  commit_run-pending db report config now retention out later pending h asked =
      let s = commit_run-Steps T fl uuid fresh db report config now retention false out h in
      let (at', canonical, e) = >>=-ok (canonical_timestamp T later) _ pending asked in
      let fresh_messages : All IsPending s.filled.1 =
        subst (λ f. All IsPending f.1) (sym s.made)
          (build_outbox-IsPending uuid report.run_id
            (sort_with by_transition s.advanced.transitions)) in
      let queued =
        insert_outbox-queued s.filled.0.completed_at s.filled.0.transitions at' s.persisted.written
          s.persisted.queued s.filled.1 s.persisted.inserted fresh_messages in
      subst (All (λ m. any (same_message m) pending ≡ true)) (sym s.returned) (
        All-imp
          (λ m q.
            subst (λ ps. any (same_message m) ps ≡ true) (ok-injective _ pending e)
              (pending_rows-any out.0 at' m (
                ap (λ d. any (is_queued at' m) (Database.notifications d)) s.persisted.pruned
                ∙ pruned-queued s.persisted.queued s.persisted.cutoff at' m
                ∙ q)))
          s.filled.1 queued)
