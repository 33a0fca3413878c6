-- ===== src/Cli/Promises.antt =====
-- What the exit code of a run and the classification of a response tell.
use adguard_sentinel.Base.{
  ℕ, ◌≤◌, ◌<◌, ◌≡◌, ◌≢◌, refl, Option, none, some, Bool, true, false, arith, ◌↔◌, not, ◌&&◌, ◌||◌,
  List, [], ◌∷◌, any, is_empty, length, filter_by, String,
}
use adguard_sentinel.Base.Result.{ok}
use adguard_sentinel.Base.Chars.{is_empty_text}
use adguard_sentinel.Model.Condition.{Severity, rank, ConditionEvaluation, is_active}
use adguard_sentinel.Model.Observation.{TargetReport}
use adguard_sentinel.Model.Run.{
  NotificationStatus, DeliveryActivity, NotificationReport, OutboxMessage,
}
use adguard_sentinel.Store.Tables.{Database, NotificationAttemptOutcome, Timestamps}
use adguard_sentinel.Store.Record.{status_of}
use adguard_sentinel.Cli.Exit.{
  FailOn, matches, fail_on_match, initial_exit, final_exit, exit_before_delivery, health_met,
  complete_targets,
}
use adguard_sentinel.Cli.Deliver.{deliver}
use adguard_sentinel.Cli.Settled.{was_delivered, stops-failed, deliver-stops}
use adguard_sentinel.Cli.Response.{PushoverResponse, classify_response}

-- A threshold that a severity meets is met by every severity that is no less.
pub matches_mono :
    (fail_on : FailOn) (low high : Severity)
    → rank low ≤ rank high
    → matches fail_on low ≡ true
    → matches fail_on high ≡ true
unfolding matches
matches_mono fail_on low high le met = ground arith

-- The severities that a threshold is met by.
abbrev pub meets : FailOn → Severity → Bool
meets FailOn.never severity = false
meets FailOn.warning severity = true
meets FailOn.error Severity.warning = false
meets FailOn.error Severity.error = true
meets FailOn.error Severity.critical = true
meets FailOn.critical Severity.warning = false
meets FailOn.critical Severity.error = false
meets FailOn.critical Severity.critical = true

matches_lem : (fail_on : FailOn) (s : Severity) → matches fail_on s ≡ meets fail_on s
unfolding matches
matches_lem FailOn.never s = refl
matches_lem FailOn.warning s = refl
matches_lem FailOn.error s = ground arith
matches_lem FailOn.critical s = ground arith

-- An active finding meets the threshold.
abbrev pub has_match : {V : Type 0} → FailOn → List (ConditionEvaluation V) → Bool
has_match fail_on = any (λ e. is_active e.outcome && meets fail_on e.severity)

fail_on_match_lem :
    {V : Type 0} (fail_on : FailOn) (es : List (ConditionEvaluation V))
    → fail_on_match fail_on es ≡ has_match fail_on es
unfolding fail_on_match
fail_on_match_lem fail_on [] = refl
fail_on_match_lem fail_on (e ∷ es) =
    ground (arith, matches_lem fail_on e.severity, fail_on_match_lem fail_on es)

-- An attempt was recovered or a send was not confirmed.
abbrev pub has_failed : List DeliveryActivity → List NotificationAttemptOutcome → Bool
has_failed attempts sends = not (is_empty attempts) || any (λ o. not (was_delivered o)) sends

exit_codes :
    (failed undelivered recovered matched met : Bool) (minimum complete : ℕ)
    → failed ≡ undelivered
    → (recovered ≡ true → undelivered ≡ true)
    → matched ≡ met
    → let code = final_exit failed (initial_exit recovered (health_met minimum complete) matched) in
      ((code ≡ 4) ↔ (undelivered ≡ true))
      × ((code ≡ 3) ↔ ((undelivered ≡ false) × (complete < minimum)))
      × ((code ≡ 1) ↔ ((undelivered ≡ false) × (minimum ≤ complete) × (met ≡ true)))
      × ((code ≡ 0) ↔ ((undelivered ≡ false) × (minimum ≤ complete) × (met ≡ false)))
unfolding final_exit initial_exit
exit_codes failed undelivered recovered matched met minimum complete e r m = ground arith

module _ (T : Timestamps) (started completed attempt_id : ℕ → String)
    (send : OutboxMessage → NotificationAttemptOutcome) (run_id : String) {F V : Type 0} where
  -- The exit code of a run whose deliveries met no error of the store is 4 exactly if an interrupted
  -- attempt was recovered before it or one of its sends was not confirmed; else 3 exactly if fewer
  -- targets were complete than demanded; else 1 exactly if an active finding met the threshold; and
  -- else 0.
  pub exit_lem :
      (attempts : List DeliveryActivity) (minimum : ℕ) (targets : List (TargetReport F))
      (fail_on : FailOn) (evaluations : List (ConditionEvaluation V)) (db : Database F V)
      (reports : List NotificationReport) (messages : List OutboxMessage)
      (reports' : List NotificationReport) (failed : Bool)
      → (deliver T started completed attempt_id send run_id
          (not (is_empty attempts))
          0
          db
          reports
          messages).result
        ≡ ok (reports', failed)
      → let code =
          final_exit failed (exit_before_delivery attempts minimum targets fail_on evaluations) in
        let undelivered =
          has_failed attempts
            (deliver T started completed attempt_id send run_id
              (not (is_empty attempts))
              0
              db
              reports
              messages).sends in
        let complete = length (filter_by (λ r. TargetReport.complete r) targets) in
        ((code ≡ 4) ↔ (undelivered ≡ true))
        × ((code ≡ 3) ↔ ((undelivered ≡ false) × (complete < minimum)))
        × ((code ≡ 1) ↔ (
            (undelivered ≡ false) × (minimum ≤ complete) × (has_match fail_on evaluations ≡ true)))
        × ((code ≡ 0) ↔ (
            (undelivered ≡ false) × (minimum ≤ complete) × (has_match fail_on evaluations ≡ false)))
  unfolding exit_before_delivery
  exit_lem attempts minimum targets fail_on evaluations db reports messages reports' failed h =
      let recovered = not (is_empty attempts) in
      let sends =
        (deliver T started completed attempt_id send run_id recovered 0 db reports
          messages).sends in
      let why : failed ≡ has_failed attempts sends = stops-failed recovered failed messages sends (
        deliver-stops T started completed attempt_id send run_id recovered 0 db reports messages
          reports' failed h) in
      exit_codes failed (has_failed attempts sends) recovered (fail_on_match fail_on evaluations)
        (has_match fail_on evaluations) minimum (complete_targets targets) why (λ e. ground arith)
        (fail_on_match_lem fail_on evaluations)

-- A message counts as delivered exactly if the response has status 200 and a body that decodes,
-- with status 1 and a request id that is not empty.
pub delivered_iff :
    (status : ℕ) (r : PushoverResponse)
    → ((status_of (classify_response status (some r)) ≡ NotificationStatus.delivered)
        ↔ ((status ≡ 200) × (r.status ≡ 1) × (is_empty_text r.request ≡ false)))
      × (status_of (classify_response status none) ≢ NotificationStatus.delivered)
unfolding classify_response
delivered_iff status r = (ground arith, ground arith)

-- A response is retried exactly if its status is one of a server error, whatever its body.
pub retryable_iff :
    (status : ℕ) (parsed : Option PushoverResponse)
    → (status_of (classify_response status parsed) ≡ NotificationStatus.retryable)
      ↔ ((500 ≤ status) × (status < 600))
unfolding classify_response
retryable_iff status parsed = ground arith
