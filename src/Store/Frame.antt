-- ===== src/Store/Frame.antt =====
-- What the statements of `commit_run` leave alone.
use adguard_sentinel.Base.{
  ◌≡◌, refl, sym, ap, ◌∙◌, String, Option, none, some, List, [], ◌∷◌, arith,
}
use adguard_sentinel.Base.Float.{Float}
use adguard_sentinel.Base.Int.{ℤ}
use adguard_sentinel.Base.Result.{ok, ◌>>=◌, ok-injective, >>=-ok}
use adguard_sentinel.Config.Types.{Config}
use adguard_sentinel.Model.Condition.{ConditionEvaluation, ConditionTransition}
use adguard_sentinel.Model.Observation.{TargetReport}
use adguard_sentinel.Model.Run.{RunReport, OutboxMessage, AggregateObservation}
use adguard_sentinel.Store.Tables.{Database, Timestamps, canonical_timestamp}
use adguard_sentinel.Store.Persist.{
  insert_run, insert_target, insert_targets, insert_aggregate, insert_evaluations,
}
use adguard_sentinel.Store.Prune.{prune_runs, delete_runs}
use adguard_sentinel.Store.Commit.{Advanced, upsert_states}
use adguard_sentinel.Store.Cooldown.{update_runtime_states}
use adguard_sentinel.Store.Queue.{insert_message, insert_outbox}
use adguard_sentinel.Store.Run.{write_rows, persist}

-- The mode, the latches and the messages are as they were.
pub record SameCore {F V : Type 0} (db db' : Database F V) : Type 0 where
  pub same_mode : db'.run_mode ≡ db.run_mode
  pub same_states : db'.states ≡ db.states
  pub same_messages : db'.notifications ≡ db.notifications

SameCore-trans : {F V : Type 0} {a b c : Database F V} → SameCore a b → SameCore b c → SameCore a c
SameCore-trans p q = record {
  same_mode = q.same_mode ∙ p.same_mode;
  same_states = q.same_states ∙ p.same_states;
  same_messages = q.same_messages ∙ p.same_messages;
}

module _ (fl : Float) {V : Type 0} where
  open fl use {F}

  insert_run-SameCore :
      (db db' : Database F V) (report : RunReport F V)
      → insert_run fl db report ≡ ok db'
      → SameCore db db'
  unfolding insert_run
  insert_run-SameCore db db' report h = record {
    same_mode = ground arith;
    same_states = ground arith;
    same_messages = ground arith;
  }

  insert_target-SameCore :
      (run_id : String) (db db' : Database F V) (target : TargetReport F)
      → insert_target fl db run_id target ≡ ok db'
      → SameCore db db'
  unfolding insert_target
  insert_target-SameCore run_id db db' target h = record {
    same_mode = ground arith;
    same_states = ground arith;
    same_messages = ground arith;
  }

  insert_targets-SameCore :
      (run_id : String) (db db' : Database F V) (targets : List (TargetReport F))
      → insert_targets fl db run_id targets ≡ ok db'
      → SameCore db db'
  unfolding insert_targets
  insert_targets-SameCore run_id db db' [] h = record {
    same_mode = ground arith;
    same_states = ground arith;
    same_messages = ground arith;
  }
  insert_targets-SameCore run_id db db' (target ∷ targets) h =
      let (mid, first, rest) = >>=-ok (insert_target fl db run_id target) _ db' h in
      SameCore-trans (insert_target-SameCore run_id db mid target first)
        (insert_targets-SameCore run_id mid db' targets rest)

  insert_aggregate-SameCore :
      (run_id : String) (db db' : Database F V) (aggregate : Option (AggregateObservation F))
      → insert_aggregate fl db run_id aggregate ≡ ok db'
      → SameCore db db'
  unfolding insert_aggregate
  insert_aggregate-SameCore run_id db db' none h = record {
    same_mode = ground arith;
    same_states = ground arith;
    same_messages = ground arith;
  }
  insert_aggregate-SameCore run_id db db' (some a) h = record {
    same_mode = ground arith;
    same_states = ground arith;
    same_messages = ground arith;
  }

module _ {F V : Type 0} where
  insert_evaluations-SameCore :
      (run_id : String) (db db' : Database F V) (es : List (ConditionEvaluation V))
      → insert_evaluations db run_id es ≡ ok db'
      → SameCore db db'
  unfolding insert_evaluations
  insert_evaluations-SameCore run_id db db' es h = record {
    same_mode = ground arith;
    same_states = ground arith;
    same_messages = ground arith;
  }

  runtime-same :
      (db db' : Database F V) (config : Config) (now : ℤ) (targets : List (TargetReport F))
      → (update_runtime_states config now targets db.runtime
          >>= (λ runtime. ok (record db { runtime = runtime })))
        ≡ ok db'
      → (db'.run_mode ≡ db.run_mode) × (db'.states ≡ db.states)
  runtime-same db db' config now targets h = ground arith

  insert_message-same :
      (created : String) (ts : List ConditionTransition) (db db' : Database F V) (m : OutboxMessage)
      → insert_message created ts db m ≡ ok db'
      → (db'.run_mode ≡ db.run_mode) × (db'.states ≡ db.states)
  unfolding insert_message
  insert_message-same created ts db db' m h = ground arith

  insert_outbox-same :
      (created : String) (ts : List ConditionTransition) (db db' : Database F V)
      (ms : List OutboxMessage)
      → insert_outbox created ts db ms ≡ ok db'
      → (db'.run_mode ≡ db.run_mode) × (db'.states ≡ db.states)
  unfolding insert_outbox
  insert_outbox-same created ts db db' [] h = ground arith
  insert_outbox-same created ts db db' (m ∷ ms) h =
      let (mid, first, rest) = >>=-ok (insert_message created ts db m) _ db' h in
      ground (
        arith,
        insert_message-same created ts db mid m first,
        insert_outbox-same created ts mid db' ms rest,
      )

  prune_runs-same :
      (db : Database F V) (cutoff : String)
      → ((prune_runs db cutoff).run_mode ≡ db.run_mode)
        × ((prune_runs db cutoff).states ≡ db.states)
  unfolding prune_runs delete_runs
  prune_runs-same db cutoff = (refl, refl)

module _ (fl : Float) {V : Type 0} where
  open fl use {F}

  write_rows-same :
      (advanced : Advanced F V) (report : RunReport F V) (config : Config) (now : ℤ)
      (written : Database F V)
      → write_rows fl advanced report config now ≡ ok written
      → (written.run_mode ≡ advanced.db.run_mode)
        × (written.states ≡ upsert_states advanced.states advanced.db.states)
  unfolding write_rows
  write_rows-same advanced report config now written h =
      let (db1, h1, k1) = >>=-ok (insert_run fl advanced.db report) _ written h in
      let (db2, h2, k2) =
        >>=-ok (insert_targets fl db1 report.run_id report.targets) _ written k1 in
      let (db3, h3, k3) =
        >>=-ok (insert_aggregate fl db2 report.run_id report.aggregate) _ written k2 in
      let db4 : Database F V = record db3 { states = upsert_states advanced.states db3.states } in
      let (db5, h5, k5) =
        >>=-ok (insert_evaluations db4 report.run_id report.evaluations) _ written k3 in
      let core = SameCore-trans (insert_run-SameCore fl advanced.db db1 report h1) (
        SameCore-trans (insert_targets-SameCore fl report.run_id db1 db2 report.targets h2)
          (insert_aggregate-SameCore fl report.run_id db2 db3 report.aggregate h3)) in
      let rows = insert_evaluations-SameCore report.run_id db4 db5 report.evaluations h5 in
      let (mode, states) = runtime-same db5 written config now report.targets k5 in
      (
        mode ∙ rows.same_mode ∙ core.same_mode,
        states ∙ rows.same_states ∙ ap (upsert_states advanced.states) core.same_states,
      )

module _ (T : Timestamps) (fl : Float) {V : Type 0} where
  open fl use {F}

  -- The statements behind the loop: rows, then messages, then the pruning.
  pub record Persisted (advanced : Advanced F V) (report : RunReport F V)
      (outbox : List OutboxMessage) (db' : Database F V) : Type 0 where
    pub written : Database F V
    pub queued : Database F V
    pub cutoff : String
    pub inserted : insert_outbox report.completed_at report.transitions written outbox ≡ ok queued
    pub pruned : db' ≡ prune_runs queued cutoff
    pub moded : db'.run_mode ≡ advanced.db.run_mode
    pub stated : db'.states ≡ upsert_states advanced.states advanced.db.states

  pruned-Persisted :
      (advanced : Advanced F V) (report : RunReport F V) (outbox : List OutboxMessage)
      (db' written queued : Database F V) (cutoff : String)
      → insert_outbox report.completed_at report.transitions written outbox ≡ ok queued
      → db' ≡ prune_runs queued cutoff
      → written.run_mode ≡ advanced.db.run_mode
      → written.states ≡ upsert_states advanced.states advanced.db.states
      → Persisted advanced report outbox db'
  unfolding prune_runs delete_runs
  pruned-Persisted advanced report outbox db' written queued cutoff inserted pruned moded stated =
      let (mode, states) =
        insert_outbox-same report.completed_at report.transitions written queued outbox inserted in
      record {
        written = written;
        queued = queued;
        cutoff = cutoff;
        inserted = inserted;
        pruned = pruned;
        moded = ap (λ d. Database.run_mode d) pruned ∙ mode ∙ moded;
        stated = ap (λ d. Database.states d) pruned ∙ states ∙ stated;
      }

  pub persist_cases :
      (advanced : Advanced F V) (report : RunReport F V) (outbox : List OutboxMessage)
      (config : Config) (now : ℤ) (retention : String) (db' : Database F V)
      → persist T fl advanced report outbox config now retention ≡ ok db'
      → Persisted advanced report outbox db'
  unfolding persist
  persist_cases advanced report outbox config now retention db' h =
      let (written, h1, k1) = >>=-ok (write_rows fl advanced report config now) _ db' h in
      let (queued, h2, k2) =
        >>=-ok (insert_outbox report.completed_at report.transitions written outbox) _ db' k1 in
      let (cutoff, h3, k3) = >>=-ok (canonical_timestamp T retention) _ db' k2 in
      let (mode, states) = write_rows-same fl advanced report config now written h1 in
      pruned-Persisted advanced report outbox db' written queued cutoff h2
        (sym (ok-injective (prune_runs queued cutoff) db' k3)) mode states
