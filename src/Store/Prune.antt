-- ===== src/Store/Prune.antt =====
-- `prune_runs`: runs past their retention, with what `ON DELETE CASCADE` deletes with them.
use adguard_sentinel.Base.{
  String, Option, none, some, Bool, true, false, not, ◌&&◌, List, ◌==◌, str_leb, any, contains,
  filter_by, map, last?, sort_with,
}
use adguard_sentinel.Model.Run.{NotificationStatus}
use adguard_sentinel.Store.Tables.{Database, RunRow, TargetRow, Notification}
use adguard_sentinel.Store.Attempt.{before}

-- `status IN ('pending', 'retryable', 'in_flight', 'unknown', 'failed')`.
abbrev pub is_undelivered : NotificationStatus → Bool
is_undelivered NotificationStatus.pending = true
is_undelivered NotificationStatus.retryable = true
is_undelivered NotificationStatus.in_flight = true
is_undelivered NotificationStatus.unknown = true
is_undelivered NotificationStatus.failed = true
is_undelivered _ = false

-- `ORDER BY completed_at ASC, rowid ASC` of the runs: the sort is stable.
abbrev pub completed_first : RunRow → RunRow → Bool
completed_first a b = str_leb a.completed_at b.completed_at

module _ {F : Type 0} where
  -- An observation of the target whose counters are inexact, in the run.
  abbrev pub is_inexact : List (TargetRow F) → String → RunRow → Bool
  is_inexact targets target_id r =
      any (λ t. (t.run_id == r.id) && (t.target_id == target_id) && not t.counters_exact) targets

  -- The run that observed a target inexactly last: rank 1 of its partition.
  unfoldable pub newest_barrier : List RunRow → List (TargetRow F) → String → Option RunRow
  newest_barrier runs targets target_id =
      last? (filter_by (is_inexact targets target_id) (sort_with completed_first runs))

  -- `id IN (SELECT run_id FROM precision_barriers WHERE newest = 1)`.
  unfoldable pub is_barrier : List RunRow → List (TargetRow F) → RunRow → Bool
  is_barrier runs targets r =
      any
        (λ t. not t.counters_exact && elim (newest_barrier runs targets t.target_id) [
          | none ↦ false
          | some b ↦ b.id == r.id
        ])
        targets

module _ {F V : Type 0} where
  unfoldable pub is_prunable : Database F V → String → RunRow → Bool
  unfolding is_barrier
  is_prunable db cutoff r =
      before r.completed_at cutoff
      && not (is_barrier db.runs db.targets r)
      && not (any (λ n. (n.run_id == r.id) && is_undelivered n.status) db.notifications)

  -- `DELETE FROM runs` of the given ids, with its cascades.
  unfoldable pub delete_runs : Database F V → List String → Database F V
  delete_runs db ids =
      let kept = filter_by (λ n. not (contains ids n.run_id)) db.notifications in
      let gone =
        map (λ n. Notification.id n) (filter_by (λ n. contains ids n.run_id) db.notifications) in
      record db {
        runs = filter_by (λ r. not (contains ids r.id)) db.runs;
        targets = filter_by (λ t. not (contains ids t.run_id)) db.targets;
        upstreams = filter_by (λ u. not (contains ids u.run_id)) db.upstreams;
        filters = filter_by (λ f. not (contains ids f.run_id)) db.filters;
        rewrites = filter_by (λ r. not (contains ids r.run_id)) db.rewrites;
        aggregates = filter_by (λ a. not (contains ids a.run_id)) db.aggregates;
        evaluations = filter_by (λ e. not (contains ids e.run_id)) db.evaluations;
        notifications = kept;
        members = filter_by (λ m. not (contains gone m.notification_id)) db.members;
        attempts = filter_by (λ a. not (contains gone a.notification_id)) db.attempts;
      }

  unfoldable pub prune_runs : Database F V → String → Database F V
  unfolding is_prunable delete_runs
  prune_runs db cutoff =
      delete_runs db (map (λ r. RunRow.id r) (filter_by (is_prunable db cutoff) db.runs))
