-- ===== src/Examples/Deliveries.antt =====
-- Messages that are handed out, sent, recovered, cancelled and kept (crates/sentinel-store/src/store.rs).
use adguard_sentinel.Base.{
  arith, not, ℕ, ◌≡◌, refl, String, ◌<>◌, none, true, false, ◌&&◌, List, [], ◌∷◌, map, All,
  filter_by, sort_with, insert_with, join,
}
use mathlib.Core.List.{Perm}
use adguard_sentinel.Base.Chars.{decimal}
use adguard_sentinel.Base.Result.{ok_or}
use adguard_sentinel.Model.Run.{OutboxMessage, DeliveryActivity}
use adguard_sentinel.Store.Tables.{Notification, NotificationAttemptOutcome, canonical_timestamp}
use adguard_sentinel.Store.Query.{
  is_in_flight, is_unsent, message_of, pending_outbox, load_outbox_message, latest_completed,
  notification_members, record_delivery_activity, refresh_evaluation, load_notification_conditions,
}
use adguard_sentinel.Store.Recover.{
  recover_interrupted_attempts, interrupted_rows, recover_all, recover_one, attempt_of,
}
use adguard_sentinel.Store.Attempt.{
  begin_notification_attempt, canonical_option, check_claim, claim,
}
use adguard_sentinel.Store.Record.{
  record_notification_attempt, close, settle_conditions, mark_exit, next_retry, settle_members,
  settle_member,
}
use adguard_sentinel.Outbox.Batch.{notification_line}
use adguard_sentinel.Store.Cancel.{cancel_unsent_condition, names_condition}
use adguard_sentinel.Store.Withdrawn.{cancel_unsent_condition-none}
use adguard_sentinel.Store.Interrupted.{
  is_waiting, IsByAge, pending_outbox-ordered, recover_interrupted_attempts-none,
}
use adguard_sentinel.Cli.Exit.{FailOn, final_exit, exit_before_delivery}
use adguard_sentinel.Cli.Promises.{exit_lem}
use adguard_sentinel.Examples.Analyses.{answered}
use adguard_sentinel.Cli.Deliver.{Delivery, deliver}
use adguard_sentinel.Cli.Settled.{stops, deliver-stops, deliver-none}
use adguard_sentinel.Store.Kept.{is_settled, prune_runs-undelivered}
use adguard_sentinel.Store.Prune.{prune_runs}
use adguard_sentinel.Examples.Stores.{clock, start, db, pushed, claimed, delivered}

abbrev handed_out : List OutboxMessage
handed_out = ok_or (pending_outbox clock db start) []

pending_outbox-ordered_example :
    (rows : List Notification) × (handed_out ≡ map (message_of db) rows)
    × Perm rows (filter_by (is_waiting start) db.notifications)
    × IsByAge rows
unfolding pending_outbox canonical_timestamp
pending_outbox-ordered_example = pending_outbox-ordered clock db start handed_out refl

abbrev recovered : List DeliveryActivity
recovered = ok_or (recover_interrupted_attempts clock claimed start).1 []

recover_interrupted_attempts-none_example :
    All
      (λ m. is_in_flight m.status ≡ false)
      (recover_interrupted_attempts clock claimed start).0.notifications
unfolding recover_interrupted_attempts interrupted_rows recover_all recover_one attempt_of
    begin_notification_attempt canonical_timestamp load_outbox_message canonical_option
    latest_completed check_claim notification_members sort_with join notification_line
    record_delivery_activity record_notification_attempt close settle_conditions mark_exit
    next_retry settle_members settle_member refresh_evaluation message_of
    load_notification_conditions insert_with claim
recover_interrupted_attempts-none_example =
    recover_interrupted_attempts-none clock claimed start recovered refl

abbrev fresh : String → String
fresh id = "new"

cancel_unsent_condition-none_example :
    All
      (λ n.
        (is_unsent n.status
          && true
          && names_condition
              (cancel_unsent_condition fresh db "target:one:api" none)
              "target:one:api"
              n)
        ≡ false)
      (cancel_unsent_condition fresh db "target:one:api" none).notifications
cancel_unsent_condition-none_example =
    cancel_unsent_condition-none fresh "target:one:api" none db (λ id. refl)

prune_runs-undelivered_example :
    filter_by (λ n. not (is_settled n.status)) (prune_runs claimed "2027").notifications
    ≡ claimed.notifications
unfolding begin_notification_attempt canonical_timestamp load_outbox_message canonical_option
    latest_completed check_claim notification_members sort_with join notification_line
    record_delivery_activity
prune_runs-undelivered_example = prune_runs-undelivered claimed "2027"

abbrev accepts : OutboxMessage → NotificationAttemptOutcome
accepts m = delivered

abbrev tick : ℕ → String
tick n = start

abbrev delivery : Delivery ℕ ℕ
delivery = deliver clock tick tick (λ n. "a" <> decimal n) accepts "r1" false 0 db [] (pushed ∷ [])

deliver-stops_example : stops false false (pushed ∷ []) delivery.sends ≡ true
unfolding deliver begin_notification_attempt canonical_timestamp load_outbox_message
    canonical_option latest_completed check_claim notification_members sort_with join
    notification_line record_delivery_activity record_notification_attempt decimal
    refresh_evaluation
deliver-stops_example =
    deliver-stops clock tick tick (λ n. "a" <> decimal n) accepts "r1" false 0 db [] (pushed ∷ [])
      [] false refl

deliver-none_example : All (λ m. is_in_flight m.status ≡ false) delivery.db.notifications
unfolding deliver begin_notification_attempt canonical_timestamp load_outbox_message
    canonical_option latest_completed check_claim notification_members sort_with join
    notification_line record_delivery_activity record_notification_attempt decimal
    refresh_evaluation
deliver-none_example =
    deliver-none clock tick tick (λ n. "a" <> decimal n) accepts "r1" false 0 db [] (pushed ∷ [])
      ([], false) (refl, tt) refl

-- One message, delivered; one target, complete, and one demanded.
exit_lem_example :
    final_exit false
      (exit_before_delivery {F = ℕ} {V = ℕ} [] 1 (answered "a" ∷ []) FailOn.critical [])
    ≡ 0
unfolding deliver begin_notification_attempt canonical_timestamp load_outbox_message
    canonical_option latest_completed check_claim notification_members sort_with join
    notification_line record_delivery_activity record_notification_attempt decimal
    refresh_evaluation
exit_lem_example =
    (exit_lem clock tick tick (λ n. "a" <> decimal n) accepts "r1" [] 1 (answered "a" ∷ [])
        FailOn.critical [] db [] (pushed ∷ []) [] false refl).3.1
      (refl, omega arith, refl)
