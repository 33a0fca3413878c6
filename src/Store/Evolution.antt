-- ===== src/Store/Evolution.antt =====
-- How the rows of `notification_outbox` may change: one row goes from a status to another.
use mathlib.Core.Option
use mathlib.Core.Option.{some-injective}
use adguard_sentinel.Base.{
  subst, ◌≡◌, refl, ap, String, some, false, List, [], ◌∷◌, ◌++◌, arith, ◌==◌, eq_iff, find_by,
  update_where, All, Bool-cases, inl, inr,
}
use adguard_sentinel.Model.Run.{NotificationStatus}
use adguard_sentinel.Store.Tables.{Notification, NotificationAttemptOutcome}
use adguard_sentinel.Store.Record.{status_of}

-- A row that never changes what it says or whence it is.
pub record IsSameMessage (n m : Notification) : Type 0 where
  pub same_id : m.id ≡ n.id
  pub same_run : m.run_id ≡ n.run_id
  pub same_transition : m.transition ≡ n.transition
  pub same_title : m.title ≡ n.title
  pub same_message : m.message ≡ n.message
  pub same_priority : m.priority ≡ n.priority
  pub same_age : m.created_at ≡ n.created_at

-- One row of the table, the one with this id, goes from a status to another, and is the same message
-- in the same place; all other rows stay what and where they are.
pub record IsMove (id : String) (first last : NotificationStatus) (old new : List Notification)
    : Type 0 where
  pub ahead : List Notification
  pub row : Notification
  pub row' : Notification
  pub behind : List Notification
  pub old_rows : old ≡ ahead ++ row ∷ behind
  pub new_rows : new ≡ ahead ++ row' ∷ behind
  pub named : row.id ≡ id
  pub begun : row.status ≡ first
  pub ended : row'.status ≡ last
  pub same : IsSameMessage row row'

-- The primary key.
abbrev pub IsKeyed : List Notification → Type 0
IsKeyed [] = Unit
IsKeyed (n ∷ ns) = All (λ m. (m.id == n.id) ≡ false) ns × IsKeyed ns

module _ (k : String) (f : Notification → Notification) where
  -- An update by key leaves the rows with other keys alone.
  pub update-absent :
      (ns : List Notification)
      → All (λ m. (m.id == k) ≡ false) ns
      → update_where (λ m. m.id == k) f ns ≡ ns
  update-absent [] h = refl
  update-absent (n ∷ ns) h = rw (h.0, update-absent ns h.1)

  pub find-update :
      (ns : List Notification)
      → ((n : Notification) → (f n).id ≡ n.id)
      → find_by (λ m. m.id == k) (update_where (λ m. m.id == k) f ns)
        ≡ Option.map f (find_by (λ m. m.id == k) ns)
  find-update [] keep = refl
  find-update (n ∷ ns) keep = ground (arith, keep n, find-update ns keep)

  -- The rows around the one with the key.
  pub update-split :
      (ns : List Notification) (row : Notification)
      → IsKeyed ns
      → find_by (λ m. m.id == k) ns ≡ some row
      → (ahead : List Notification) × (behind : List Notification) × (ns ≡ ahead ++ row ∷ behind)
        × (update_where (λ m. m.id == k) f ns ≡ ahead ++ f row ∷ behind)
        × (row.id ≡ k)
  update-split [] row keyed found = cc
  update-split (n ∷ ns) row keyed found = elim (Bool-cases (n.id == k)) [
    | inl hit ↦
        (let same : n ≡ row = some-injective n row (rw hit at found) in
          let gone =
            update-absent ns
              (subst (λ j. All (λ m. (m.id == j) ≡ false) ns) ((eq_iff n.id k).0 hit) keyed.0) in
          (
            [],
            ns,
            ap (λ r. r ∷ ns) same,
            rw (hit, gone) (ap (λ r. f r ∷ ns) same),
            subst (λ r. Notification.id r ≡ k) same ((eq_iff n.id k).0 hit),
          ))
    | inr miss ↦
        (let (ahead, behind, old, new, named) = update-split ns row keyed.1 (rw miss at found) in
          (n ∷ ahead, behind, ap (λ r. n ∷ r) old, rw miss (ap (λ r. n ∷ r) new), named))
  ]

-- The status that an outcome ends an attempt in.
abbrev pub ending : NotificationAttemptOutcome → NotificationStatus
ending (NotificationAttemptOutcome.delivered _ _) = NotificationStatus.delivered
ending (NotificationAttemptOutcome.retryable _ _) = NotificationStatus.retryable
ending (NotificationAttemptOutcome.failed _ _ _) = NotificationStatus.failed
ending (NotificationAttemptOutcome.unknown _) = NotificationStatus.unknown

pub status_of_lem : (o : NotificationAttemptOutcome) → status_of o ≡ ending o
status_of_lem o = ground arith
