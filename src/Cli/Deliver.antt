-- ===== src/Cli/Deliver.antt =====
-- The loop of `check_with_sink` that sends the pending messages (apps/sentinel-cli/src/main.rs).
use adguard_sentinel.Base.{
  ℕ, suc, String, Bool, true, false, not, List, [], ◌∷◌, if◌then◌else◌, ◌==◌,
}
use adguard_sentinel.Base.Result.{Result, ok, err}
use adguard_sentinel.Model.Run.{OutboxMessage, NotificationReport}
use adguard_sentinel.Store.Tables.{
  Database, NotificationAttempt, NotificationAttemptOutcome, StoreError, Timestamps,
}
use adguard_sentinel.Store.Attempt.{begin_notification_attempt}
use adguard_sentinel.Store.Record.{record_notification_attempt}

-- `matches!(outcome, NotificationAttemptOutcome::Delivered { .. })`.
abbrev pub is_confirmed : NotificationAttemptOutcome → Bool
is_confirmed (NotificationAttemptOutcome.delivered _ _) = true
is_confirmed _ = false

-- The report of a message of this run is replaced, the first of its id.
unfoldable pub update_report :
    NotificationReport → List NotificationReport → List NotificationReport
update_report report [] = []
update_report report (r ∷ rs) =
    let behind = r ∷ update_report report rs in if r.id == report.id then report ∷ rs else behind

-- What the loop leaves: the store, the run's reports with `notification_failed`, or the error that
-- ended it, and the outcomes of the messages that it sent.
pub record Delivery (F V : Type 0) : Type 0 where
  pub db : Database F V
  pub result : Result StoreError (List NotificationReport × Bool)
  pub sends : List NotificationAttemptOutcome

-- `recovered` is `recovered_delivery_failure`, which `notification_failed` begins as; `started` and
-- `completed` are the readings of the clock for the n-th message, `attempt_id` its
-- `Uuid::new_v4`, `send` the sink's answer.
module _ (T : Timestamps) (started completed attempt_id : ℕ → String)
    (send : OutboxMessage → NotificationAttemptOutcome) (run_id : String) (recovered : Bool)
    {F V : Type 0} where
  unfoldable pub deliver :
      ℕ → Database F V → List NotificationReport → List OutboxMessage → Delivery F V
  unfolding update_report
  deliver n db reports [] = record { db = db; result = ok (reports, recovered); sends = [] }
  deliver n db reports (message ∷ messages) =
      elim (begin_notification_attempt T db message (started n) run_id (attempt_id n)) [
        | err e ↦ record { db = db; result = err e; sends = [] }
        | ok (db1, attempt) ↦
            (let outcome = send (NotificationAttempt.message attempt) in
              elim (record_notification_attempt T db1 attempt (completed n) outcome) [
                | err e ↦ record { db = db1; result = err e; sends = outcome ∷ [] }
                | ok (db2, report) ↦
                    (let reports' = update_report report reports in
                      let rest = deliver (suc n) db2 reports' messages in
                      if not (is_confirmed outcome)
                      then record { db = db2; result = ok (reports', true); sends = outcome ∷ [] }
                      else record rest { sends = outcome ∷ rest.sends })
              ])
      ]
