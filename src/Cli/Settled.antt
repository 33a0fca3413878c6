-- ===== src/Cli/Settled.antt =====
-- What the delivery of the pending messages leaves behind.
use adguard_sentinel.Base.{
  ℕ, suc, ◌≡◌, refl, sym, ap, ◌∙◌, subst, String, none, Bool, true, false, not, ◌&&◌, List, [], ◌∷◌,
  arith, ◌==◌, eq_iff, if◌then◌else◌, is_empty, any, ◌||◌, All, All-imp, Bool-cases, inl, inr,
}
use mathlib.Core.Bool.{beq}
use adguard_sentinel.Base.Result.{ok, ok-injective, Result-cases, ok_or}
use adguard_sentinel.Model.Run.{OutboxMessage, NotificationReport}
use adguard_sentinel.Store.Tables.{
  Database, NotificationAttempt, NotificationAttemptOutcome, Timestamps, canonical_timestamp,
}
use adguard_sentinel.Store.Query.{is_in_flight, load_outbox_message}
use adguard_sentinel.Store.Attempt.{begin_notification_attempt, claim}
use adguard_sentinel.Store.Record.{record_notification_attempt, close, status_of, next_retry}
use adguard_sentinel.Store.Status.{begin_cases, record_cases}
use adguard_sentinel.Store.Interrupted.{is_adrift, closed-adrift}
use adguard_sentinel.Store.Withdrawn.{All-update_where}
use adguard_sentinel.Cli.Deliver.{is_confirmed, Delivery, update_report, deliver}

-- The message was confirmed as delivered.
abbrev pub was_delivered : NotificationAttemptOutcome → Bool
was_delivered (NotificationAttemptOutcome.delivered _ _) = true
was_delivered _ = false

-- All messages were sent up to the first that was not confirmed, and none behind it. The run failed
-- if there was one, or by what was recovered before it.
abbrev pub stops : {M : Type 0} → Bool → Bool → List M → List NotificationAttemptOutcome → Bool
stops recovered failed [] os = is_empty os && beq failed recovered
stops recovered failed (m ∷ ms) [] = false
stops recovered failed (m ∷ ms) (o ∷ os) =
    let rest = stops recovered failed ms os in
    if was_delivered o then rest else failed && is_empty os

is_confirmed_lem : (o : NotificationAttemptOutcome) → is_confirmed o ≡ was_delivered o
is_confirmed_lem o = ground arith

-- A run fails by what was recovered or by a send that was not confirmed.
pub stops-failed :
    {M : Type 0} (recovered failed : Bool) (ms : List M) (os : List NotificationAttemptOutcome)
    → stops recovered failed ms os ≡ true
    → failed ≡ (recovered || any (λ o. not (was_delivered o)) os)
stops-failed recovered failed [] [] h = ground arith
stops-failed recovered failed [] (o ∷ os) h = ground arith
stops-failed recovered failed (m ∷ ms) [] h = ground arith
stops-failed recovered failed (m ∷ ms) (o ∷ os) h =
    ground (arith, stops-failed recovered failed ms os)

module _ (T : Timestamps) (started completed attempt_id : ℕ → String)
    (send : OutboxMessage → NotificationAttemptOutcome) (run_id : String) (recovered : Bool)
    {F V : Type 0} where
  -- What a message went through whose delivery met no error.
  record Went (n : ℕ) (db : Database F V) (reports : List NotificationReport)
      (message : OutboxMessage) (messages : List OutboxMessage) : Type 0 where
    pub begun : Database F V × NotificationAttempt
    pub began : begin_notification_attempt T db message (started n) run_id (attempt_id n) ≡ ok begun
    pub ended : Database F V × NotificationReport
    pub recorded :
        record_notification_attempt T begun.0 begun.1 (completed n) (send begun.1.message)
        ≡ ok ended
    pub went :
        (deliver T started completed attempt_id send run_id recovered n db reports
          (message ∷ messages))
        ≡ (let rest =
              deliver T started completed attempt_id send run_id recovered
                (suc n)
                ended.0
                (update_report ended.1 reports)
                messages in
            if not (is_confirmed (send begun.1.message))
            then record {
              db = ended.0;
              result = ok (update_report ended.1 reports, true);
              sends = send begun.1.message ∷ [];
            }
            else record rest { sends = send begun.1.message ∷ rest.sends })

  deliver-Went :
      (n : ℕ) (db : Database F V) (reports : List NotificationReport) (message : OutboxMessage)
      (messages : List OutboxMessage) (out : List NotificationReport × Bool)
      → (deliver T started completed attempt_id send run_id recovered n db reports
          (message ∷ messages)).result
        ≡ ok out
      → Went n db reports message messages
  unfolding deliver
  deliver-Went n db reports message messages out h =
      elim (Result-cases
        (begin_notification_attempt T db message (started n) run_id (attempt_id n))) [
          | inl (e, failed) ↦ absurd (ground arith)
          | inr (begun, began) ↦
              elim (Result-cases (
                record_notification_attempt T begun.0 begun.1 (completed n)
                  (send begun.1.message))) [
                    | inl (e, failed) ↦ absurd (ground arith)
                    | inr (ended, recorded) ↦ record {
                      begun = begun;
                      began = began;
                      ended = ended;
                      recorded = recorded;
                      went = rw (began, recorded, deliver) refl;
                    }
                  ]
        ]

  continues :
      (n : ℕ) (db : Database F V) (reports : List NotificationReport) (message : OutboxMessage)
      (messages : List OutboxMessage) (w : Went n db reports message messages)
      → is_confirmed (send w.begun.1.message) ≡ true
      → let rest =
          deliver T started completed attempt_id send run_id recovered
            (suc n)
            w.ended.0
            (update_report w.ended.1 reports)
            messages in
        deliver T started completed attempt_id send run_id recovered n db reports
          (message ∷ messages)
        ≡ record rest { sends = send w.begun.1.message ∷ rest.sends }
  continues n db reports message messages w confirmed = w.went ∙ rw confirmed refl

  halts :
      (n : ℕ) (db : Database F V) (reports : List NotificationReport) (message : OutboxMessage)
      (messages : List OutboxMessage) (w : Went n db reports message messages)
      → is_confirmed (send w.begun.1.message) ≡ false
      → deliver T started completed attempt_id send run_id recovered n db reports
          (message ∷ messages)
        ≡ record {
          db = w.ended.0;
          result = ok (update_report w.ended.1 reports, true);
          sends = send w.begun.1.message ∷ [];
        }
  halts n db reports message messages w stopped = w.went ∙ rw stopped refl

  -- A delivery that ends without an error sent all messages in turn up to the first send that was
  -- not confirmed, and none behind it; it failed if there was such a send, and else exactly if a
  -- delivery had been recovered before it.
  pub deliver-stops :
      (n : ℕ) (db : Database F V) (reports : List NotificationReport)
      (messages : List OutboxMessage) (reports' : List NotificationReport) (failed : Bool)
      → (deliver T started completed attempt_id send run_id recovered n db reports messages).result
        ≡ ok (reports', failed)
      → stops recovered failed messages
          (deliver T started completed attempt_id send run_id recovered n db reports messages).sends
        ≡ true
  unfolding deliver
  deliver-stops n db reports [] reports' failed h = ground arith
  deliver-stops n db reports (message ∷ messages) reports' failed h =
      let w = deliver-Went n db reports message messages (reports', failed) h in
      elim (Bool-cases (is_confirmed (send w.begun.1.message))) [
        | inl confirmed ↦
            (let step = continues n db reports message messages w confirmed in
              subst (λ d. stops recovered failed (message ∷ messages) (Delivery.sends d) ≡ true)
                (sym step)
                (rw (← is_confirmed_lem (send w.begun.1.message), confirmed)
                  (deliver-stops (suc n) w.ended.0 (update_report w.ended.1 reports) messages
                    reports' failed (ap (λ d. Delivery.result d) (sym step) ∙ h))))
        | inr stopped ↦
            (let step = halts n db reports message messages w stopped in
              let told : true ≡ failed =
                ap (λ o. o.1)
                  (ok-injective (update_report w.ended.1 reports, true) (reports', failed)
                    (ap (λ d. Delivery.result d) (sym step) ∙ h)) in
              subst (λ d. stops recovered failed (message ∷ messages) (Delivery.sends d) ≡ true)
                (sym step) (rw (← is_confirmed_lem (send w.begun.1.message), stopped, ← told) refl))
      ]

  begin-adrift :
      (db db' : Database F V) (message : OutboxMessage) (at' new : String)
      (attempt : NotificationAttempt)
      → begin_notification_attempt T db message at' run_id new ≡ ok (db', attempt)
      → All (λ m. is_in_flight m.status ≡ false) db.notifications
      → All (λ m. is_adrift (message.id ∷ []) m ≡ false) db'.notifications
  unfolding claim
  begin-adrift db db' message at' new attempt h k =
      let (_, _, _, after) = begin_cases T db message at' run_id new h in
      subst (All (λ m. is_adrift (message.id ∷ []) m ≡ false)) (sym after) (
        All-update_where (λ m. is_in_flight m.status ≡ false)
          (λ m. is_adrift (message.id ∷ []) m ≡ false) (λ m. m.id == message.id) _
          (λ m e. ground (arith, eq_iff m.id message.id, eq_iff message.id m.id))
          (λ m e f. ground arith) db.notifications k)

  begin-id :
      (db db' : Database F V) (message : OutboxMessage) (at' new : String)
      (attempt : NotificationAttempt)
      → begin_notification_attempt T db message at' run_id new ≡ ok (db', attempt)
      → attempt.message.id ≡ message.id
  unfolding begin_notification_attempt load_outbox_message
  begin-id db db' message at' new attempt h = ground arith

  record-adrift :
      (db db' : Database F V) (attempt : NotificationAttempt) (at' : String)
      (outcome : NotificationAttemptOutcome) (report : NotificationReport)
      → record_notification_attempt T db attempt at' outcome ≡ ok (db', report)
      → All (λ m. is_adrift (attempt.message.id ∷ []) m ≡ false) db.notifications
      → All (λ m. is_in_flight m.status ≡ false) db'.notifications
  unfolding close
  record-adrift db db' attempt at' outcome report h k =
      let (_, _, _, _, after) = record_cases T db attempt at' outcome h in
      let ended = ok_or (canonical_timestamp T at') "" in
      All-imp (λ m e. ground arith) db'.notifications
        (subst (All (λ m. is_adrift [] m ≡ false)) (sym after) (
          closed-adrift outcome [] attempt.message.id ended
            (ok_or (next_retry T (status_of outcome) ended) none) db.notifications k))

  -- A delivery that ends without an error, in a store where nothing was in flight, leaves nothing in
  -- flight.
  pub deliver-none :
      (n : ℕ) (db : Database F V) (reports : List NotificationReport)
      (messages : List OutboxMessage) (out : List NotificationReport × Bool)
      → All (λ m. is_in_flight m.status ≡ false) db.notifications
      → (deliver T started completed attempt_id send run_id recovered n db reports messages).result
        ≡ ok out
      → All
          (λ m. is_in_flight m.status ≡ false)
          (deliver T started completed attempt_id send run_id recovered n db reports
            messages).db.notifications
  unfolding deliver
  deliver-none n db reports [] out k h = k
  deliver-none n db reports (message ∷ messages) out k h =
      let w = deliver-Went n db reports message messages out h in
      let id = begin-id db w.begun.0 message (started n) (attempt_id n) w.begun.1 w.began in
      let landed =
        record-adrift w.begun.0 w.ended.0 w.begun.1 (completed n) (send w.begun.1.message) w.ended.1
          w.recorded
          (subst (λ i. All (λ m. is_adrift (i ∷ []) m ≡ false) w.begun.0.notifications) (sym id)
            (begin-adrift db w.begun.0 message (started n) (attempt_id n) w.begun.1 w.began k)) in
      elim (Bool-cases (is_confirmed (send w.begun.1.message))) [
        | inl confirmed ↦
            (let step = continues n db reports message messages w confirmed in
              subst
                (λ d.
                  All (λ m. is_in_flight m.status ≡ false) (Database.notifications (Delivery.db d)))
                (sym step)
                (deliver-none (suc n) w.ended.0 (update_report w.ended.1 reports) messages out
                  landed (ap (λ d. Delivery.result d) (sym step) ∙ h)))
        | inr stopped ↦
            (let step = halts n db reports message messages w stopped in
              subst
                (λ d.
                  All (λ m. is_in_flight m.status ≡ false) (Database.notifications (Delivery.db d)))
                (sym step) landed)
      ]
