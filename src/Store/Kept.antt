-- ===== src/Store/Kept.antt =====
-- What the pruning of old runs keeps.
use adguard_sentinel.Base.{
  ◌≡◌, refl, sym, subst, String, Bool, true, false, not, ◌&&◌, List, [], ◌∷◌, map, arith, ◌==◌,
  eq_iff, eq_refl, any, contains, filter_by, All, All-imp, Bool-cases, inl, inr,
}
use adguard_sentinel.Model.Run.{NotificationStatus}
use adguard_sentinel.Store.Tables.{Database, Notification, RunRow}
use adguard_sentinel.Store.Prune.{is_undelivered, is_prunable, delete_runs, prune_runs}

-- A run has a message that was not delivered.
abbrev owes : List Notification → String → Bool
owes ns run_id = any (λ n. (n.run_id == run_id) && is_undelivered n.status) ns

-- Nothing is left to be done about a message.
abbrev pub is_settled : NotificationStatus → Bool
is_settled NotificationStatus.delivered = true
is_settled NotificationStatus.cancelled = true
is_settled NotificationStatus.suppressed = true
is_settled _ = false

is_undelivered_lem : (s : NotificationStatus) → is_undelivered s ≡ not (is_settled s)
is_undelivered_lem NotificationStatus.pending = refl
is_undelivered_lem NotificationStatus.in_flight = refl
is_undelivered_lem NotificationStatus.suppressed = refl
is_undelivered_lem NotificationStatus.delivered = refl
is_undelivered_lem NotificationStatus.retryable = refl
is_undelivered_lem NotificationStatus.failed = refl
is_undelivered_lem NotificationStatus.unknown = refl
is_undelivered_lem NotificationStatus.cancelled = refl

module _ {F V : Type 0} where
  owing_kept :
      (db : Database F V) (cutoff run_id : String) (runs : List RunRow)
      → owes db.notifications run_id ≡ true
      → contains (map (λ r. RunRow.id r) (filter_by (is_prunable db cutoff) runs)) run_id ≡ false
  unfolding is_prunable
  owing_kept db cutoff run_id [] h = refl
  owing_kept db cutoff run_id (r ∷ rs) h = elim (Bool-cases (r.id == run_id)) [
    | inl e ↦
        (let same : owes db.notifications r.id ≡ true =
            subst (λ i. owes db.notifications i ≡ true) (sym ((eq_iff r.id run_id).0 e)) h in
          ground (arith, owing_kept db cutoff run_id rs h))
    | inr e ↦ ground (arith, owing_kept db cutoff run_id rs h)
  ]

-- Each undelivered message is owed by its run.
All-Owed :
    (ns : List Notification)
    → All (λ n. (is_undelivered n.status && not (owes ns n.run_id)) ≡ false) ns
All-Owed [] = tt
All-Owed (n ∷ ns) =
    (ground (arith, eq_refl n.run_id), All-imp (λ m h. ground arith) ns (All-Owed ns))

filter_filter :
    (p q : Notification → Bool) (ns : List Notification)
    → All (λ n. (p n && not (q n)) ≡ false) ns
    → filter_by p (filter_by q ns) ≡ filter_by p ns
filter_filter p q [] h = refl
filter_filter p q (n ∷ ns) h = ground (arith, filter_filter p q ns h.1)

module _ {F V : Type 0} where
  -- The rows that `is_undelivered` holds of stay.
  pub prune_runs-owed :
      (db : Database F V) (cutoff : String)
      → filter_by (λ n. is_undelivered n.status) (prune_runs db cutoff).notifications
        ≡ filter_by (λ n. is_undelivered n.status) db.notifications
  unfolding prune_runs delete_runs
  prune_runs-owed db cutoff =
      filter_filter (λ n. is_undelivered n.status) _ db.notifications
        (All-imp (λ n h. ground (arith, owing_kept db cutoff n.run_id db.runs)) db.notifications
          (All-Owed db.notifications))

  -- The pruning loses no message but the settled ones, which were delivered, cancelled or suppressed,
  -- whatever the age of its run.
  pub prune_runs-undelivered :
      (db : Database F V) (cutoff : String)
      → filter_by (λ n. not (is_settled n.status)) (prune_runs db cutoff).notifications
        ≡ filter_by (λ n. not (is_settled n.status)) db.notifications
  unfolding prune_runs delete_runs
  prune_runs-undelivered db cutoff =
      filter_filter (λ n. not (is_settled n.status)) _ db.notifications
        (All-imp
          (λ n h.
            ground (arith, is_undelivered_lem n.status, owing_kept db cutoff n.run_id db.runs))
          db.notifications (All-Owed db.notifications))
