-- ===== src/Store/Interrupted.antt =====
-- What `pending_outbox` hands out, and what recovery leaves in flight.
use adguard_sentinel.Base.{
  ◌≡◌, refl, sym, ap, ◌∙◌, subst, String, Option, none, some, Bool, true, false, not, ◌&&◌, List,
  [], ◌∷◌, map, arith, ◌==◌, eq_iff, contains, filter_by, update_where, sort_with, All, All-imp,
  inl, inr, str_leb,
}
use mathlib.Core.List.{Perm}
use adguard_sentinel.Base.Order.{
  IsAscending, str_leb_total, sort_with-IsAscending, sort_with-perm, any-sort_with,
}
use adguard_sentinel.Base.Result.{ok, ◌>>=◌, ok_or, ok-injective, >>=-ok, Result-cases}
use adguard_sentinel.Model.Condition.{TransitionKind, same_kind}
use adguard_sentinel.Model.Run.{NotificationStatus, OutboxMessage, DeliveryActivity}
use adguard_sentinel.Store.Tables.{
  Database, Notification, Attempt, NotificationAttempt, NotificationAttemptOutcome, Timestamps,
  canonical_timestamp,
}
use adguard_sentinel.Store.Query.{
  is_in_flight, is_eligible, by_age, message_of, load_outbox_message, pending_rows, pending_outbox,
}
use adguard_sentinel.Store.Record.{
  record_notification_attempt, close, status_of, close_row, next_retry,
}
use adguard_sentinel.Store.Recover.{
  created_first, later_of, interruption, interrupted_rows, attempt_of, recover_one, recover_all,
  recover_interrupted_attempts,
}
use adguard_sentinel.Store.Withdrawn.{listed, contains-ids, All-update_where}
use adguard_sentinel.Store.Status.{record_cases}

by_age_total : (a b : Notification) → by_age a b ≡ false → by_age b a ≡ true
by_age_total a b h = ground (arith, str_leb_total a.created_at b.created_at)

-- A message in flight other than those that are still to be recovered.
abbrev pub is_adrift : List String → Notification → Bool
is_adrift ids n = is_in_flight n.status && not (contains ids n.id)

pub closed-adrift :
    (outcome : NotificationAttemptOutcome) (ids : List String) (id completed : String)
    (retry : Option String) (ns : List Notification)
    → All (λ m. is_adrift (id ∷ ids) m ≡ false) ns
    → All
        (λ m. is_adrift ids m ≡ false)
        (update_where (λ m. m.id == id) (close_row outcome completed retry) ns)
closed-adrift outcome ids id completed retry =
    All-update_where (λ m. is_adrift (id ∷ ids) m ≡ false) (λ m. is_adrift ids m ≡ false)
      (λ m. m.id == id) (close_row outcome completed retry) (λ n e. ground arith)
      (λ n e k. ground (arith, eq_iff n.id id, eq_iff id n.id))

-- A message that nobody has sent yet.
abbrev wants_sending : NotificationStatus → Bool
wants_sending NotificationStatus.pending = true
wants_sending NotificationStatus.retryable = true
wants_sending NotificationStatus.in_flight = false
wants_sending NotificationStatus.suppressed = false
wants_sending NotificationStatus.delivered = false
wants_sending NotificationStatus.failed = false
wants_sending NotificationStatus.unknown = false
wants_sending NotificationStatus.cancelled = false

-- It is due, unless it is to be retried at a later time.
abbrev pub is_waiting : String → Notification → Bool
is_waiting now n =
    wants_sending n.status && elim n.next_retry_at [ none ↦ true | some at' ↦ str_leb at' now ]

is_waiting_lem : (now : String) (n : Notification) → is_eligible now n ≡ is_waiting now n
is_waiting_lem now n = ground arith

-- The first is no younger than the second, and no resolution before an alert of the same age.
abbrev pub IsBefore : Notification → Notification → Type 0
IsBefore a b =
    (str_leb a.created_at b.created_at ≡ true)
    × ((str_leb b.created_at a.created_at
          && same_kind a.transition TransitionKind.resolution
          && same_kind b.transition TransitionKind.alert)
        ≡ false)

abbrev pub IsByAge : List Notification → Type 0
IsByAge [] = Unit
IsByAge (a ∷ []) = Unit
IsByAge (a ∷ b ∷ rest) = IsBefore a b × IsByAge (b ∷ rest)

by_age-IsBefore : (a b : Notification) → by_age a b ≡ true → IsBefore a b
by_age-IsBefore a b h = ground arith

ascending-IsByAge : (ns : List Notification) → IsAscending by_age ns → IsByAge ns
ascending-IsByAge [] h = tt
ascending-IsByAge (a ∷ []) h = tt
ascending-IsByAge (a ∷ b ∷ rest) h = (by_age-IsBefore a b h.0, ascending-IsByAge (b ∷ rest) h.1)

filter_by_agree :
    (p q : Notification → Bool) (ns : List Notification)
    → ((n : Notification) → p n ≡ q n)
    → filter_by p ns ≡ filter_by q ns
filter_by_agree p q [] h = refl
filter_by_agree p q (n ∷ ns) h = ground (arith, h n, filter_by_agree p q ns h)

module _ {F V : Type 0} (T : Timestamps) where
  -- The messages that are handed out are exactly the pending ones and the retryable ones whose time
  -- has come, the oldest first and, of those of one age, the alerts first.
  pub pending_outbox-ordered :
      (db : Database F V) (now : String) (messages : List OutboxMessage)
      → pending_outbox T db now ≡ ok messages
      → (rows : List Notification) × (messages ≡ map (message_of db) rows)
        × Perm rows (filter_by (is_waiting (ok_or (canonical_timestamp T now) "")) db.notifications)
        × IsByAge rows
  unfolding pending_outbox pending_rows
  pending_outbox-ordered db now messages h =
      let (at', canonical, e) = >>=-ok (canonical_timestamp T now) _ messages h in
      let due = filter_by (is_eligible at') db.notifications in
      let waiting : due ≡ filter_by (is_waiting at') db.notifications =
        filter_by_agree (is_eligible at') (is_waiting at') db.notifications (is_waiting_lem at') in
      (
        sort_with by_age due,
        sym (ok-injective _ messages e),
        rw canonical (subst (Perm (sort_with by_age due)) waiting (sort_with-perm by_age due)),
        ascending-IsByAge (sort_with by_age due) (sort_with-IsAscending by_age by_age_total due),
      )

  pub load-id :
      (db : Database F V) (id : String) (message : OutboxMessage)
      → load_outbox_message db id ≡ ok message
      → message.id ≡ id
  unfolding load_outbox_message
  load-id db id message h = ground arith

  recover_one-adrift :
      (at' : String) (db db' : Database F V) (n : Notification) (joined : Option Attempt)
      (activity : DeliveryActivity) (ids : List String)
      → recover_one T at' db (n, joined) ≡ ok (db', activity)
      → All (λ m. is_adrift (n.id ∷ ids) m ≡ false) db.notifications
      → All (λ m. is_adrift ids m ≡ false) db'.notifications
  unfolding recover_one close
  recover_one-adrift at' db db' n none activity ids h k = ground arith
  recover_one-adrift at' db db' n (some a) activity ids h k =
      let out : Database F V × DeliveryActivity = (db', activity) in
      let (message, loaded, h1) = >>=-ok (load_outbox_message db n.id) _ out h in
      let attempt : NotificationAttempt = record {
        message = message;
        id = a.id;
        started_at = a.started_at;
        executing_run_id = a.executing_run_id;
      } in
      let ended = later_of at' a.started_at in
      let (recorded, found, h2) =
        >>=-ok (record_notification_attempt T db attempt ended interruption) _ out h1 in
      let (_, _, _, _, after) = record_cases T db attempt ended interruption found in
      let closed_at = ok_or (canonical_timestamp T ended) "" in
      let same : recorded.0 ≡ db' = ap (λ o. o.0) (ok-injective _ out h2) in
      subst (λ d. All (λ m. is_adrift ids m ≡ false) (Database.notifications d)) same
        (subst (All (λ m. is_adrift ids m ≡ false)) (sym after) (
          closed-adrift interruption ids message.id closed_at
            (ok_or (next_retry T (status_of interruption) closed_at) none) db.notifications
            (subst (λ i. All (λ m. is_adrift (i ∷ ids) m ≡ false) db.notifications)
              (sym (load-id db n.id message loaded)) k)))

  recover_all-adrift :
      (at' : String) (db : Database F V) (rows : List (Notification × Option Attempt))
      (done : List DeliveryActivity)
      → (recover_all T at' db rows).1 ≡ ok done
      → All (λ m. is_adrift (map (λ r. Notification.id r.0) rows) m ≡ false) db.notifications
      → All (λ m. is_adrift [] m ≡ false) (recover_all T at' db rows).0.notifications
  unfolding recover_all
  recover_all-adrift at' db [] done h k = k
  recover_all-adrift at' db ((n, joined) ∷ rows) done h k =
      elim (Result-cases (recover_one T at' db (n, joined))) [
        | inl (e, failed) ↦ absurd (ground arith)
        | inr (recovered, went) ↦
            (let rest = recover_all T at' recovered.0 rows in
              let step : recover_all T at' db ((n, joined) ∷ rows)
                  ≡ (rest.0, (rest.1 >>= (λ activities. ok (recovered.1 ∷ activities)))) =
                rw (went, recover_all) refl in
              let (others, fine, _) = >>=-ok rest.1 _ done (ap (λ r. r.1) (sym step) ∙ h) in
              subst (λ r. All (λ m. is_adrift [] m ≡ false) (Database.notifications r.0)) (sym step)
                (recover_all-adrift at' recovered.0 rows others fine (
                  recover_one-adrift at' db recovered.0 n joined recovered.1
                    (map (λ r. Notification.id r.0) rows) went k)))
      ]

  joined_ids :
      (db : Database F V) (rows : List Notification)
      → map {A = Notification × Option Attempt}
          (λ r. Notification.id r.0)
          (map (λ n. (n, attempt_of db n)) rows)
        ≡ map (λ n. Notification.id n) rows
  joined_ids db [] = refl
  joined_ids db (n ∷ rows) = ap (λ ids. n.id ∷ ids) (joined_ids db rows)

  -- A recovery that succeeds leaves no message in flight.
  pub recover_interrupted_attempts-none :
      (db : Database F V) (at' : String) (done : List DeliveryActivity)
      → (recover_interrupted_attempts T db at').1 ≡ ok done
      → All
          (λ m. is_in_flight m.status ≡ false)
          (recover_interrupted_attempts T db at').0.notifications
  unfolding recover_interrupted_attempts interrupted_rows
  recover_interrupted_attempts-none db at' done h =
      elim (Result-cases (canonical_timestamp T at')) [
        | inl (e, failed) ↦ absurd (ground arith)
        | inr (recovered, canonical) ↦
            (let flying = filter_by (λ n. is_in_flight n.status) db.notifications in
              let ids = joined_ids db (sort_with created_first flying) in
              let begun : All
                  (λ m.
                    is_adrift
                      (map {A = Notification × Option Attempt} (λ r. Notification.id r.0)
                        (map (λ n. (n, attempt_of db n)) (sort_with created_first flying)))
                      m
                    ≡ false)
                  db.notifications =
                subst (λ is. All (λ m. is_adrift is m ≡ false) db.notifications) (sym ids)
                  (All-imp
                    (λ m e. ground (
                      arith,
                      contains-ids (sort_with created_first flying) m.id,
                      any-sort_with (λ x. x.id == m.id) created_first flying,
                    ))
                    db.notifications (listed (λ n. is_in_flight n.status) db.notifications)) in
              let rows = map (λ n. (n, attempt_of db n)) (interrupted_rows db) in
              let run : recover_interrupted_attempts T db at' ≡ recover_all T recovered db rows =
                rw (canonical, recover_interrupted_attempts) refl in
              subst (λ r. All (λ m. is_in_flight m.status ≡ false) (Database.notifications r.0))
                (sym run)
                (All-imp (λ m e. ground arith) (recover_all T recovered db rows).0.notifications
                  (recover_all-adrift recovered db rows done (ap (λ r. r.1) (sym run) ∙ h) begun)))
      ]
