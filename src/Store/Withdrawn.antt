-- ===== src/Store/Withdrawn.antt =====
-- What `cancel_unsent_condition` leaves: no message of the condition that could still be sent.
use adguard_sentinel.Base.{
  ◌≡◌, refl, ◌∙◌, String, Option, Bool, true, false, not, ◌&&◌, List, [], ◌∷◌, map, arith, ◌==◌,
  eq_iff, eq_refl, if◌then◌else◌, any, any-append, is_empty, contains, filter_by, update_where,
  sort_with, All, All-imp, All-append, Bool-cases, inl, inr,
}
use adguard_sentinel.Base.Order.{any-sort_with}
use adguard_sentinel.Model.Condition.{TransitionKind}
use adguard_sentinel.Store.Tables.{Database, Notification, Member}
use adguard_sentinel.Store.Query.{is_unsent, notification_members}
use adguard_sentinel.Store.Cancel.{
  wanted_kind, created_first, cancelled_row, replacement, names_condition, unsent_of, survivors_of,
  replace_message, cancel_message, cancel_messages, cancel_unsent_condition,
}

pub contains-ids :
    (ns : List Notification) (id : String)
    → contains (map (λ n. n.id) ns) id ≡ any (λ n. n.id == id) ns
contains-ids [] id = refl
contains-ids (n ∷ ns) id = ground (arith, contains-ids ns id)

-- A row that is selected is among the selected ones.
pub listed :
    (q : Notification → Bool) (ns : List Notification)
    → All (λ n. (q n && not (any (λ x. x.id == n.id) (filter_by q ns))) ≡ false) ns
listed q [] = tt
listed q (n ∷ ns) = (ground (arith, eq_refl n.id), All-imp (λ m h. ground arith) ns (listed q ns))

pub All-update_where {κ μ} :
    (P : Notification → Type κ) (Q : Notification → Type μ) (p : Notification → Bool)
    (f : Notification → Notification)
    → ((n : Notification) → p n ≡ true → Q (f n))
    → ((n : Notification) → p n ≡ false → P n → Q n)
    → (ns : List Notification) → All P ns
    → All Q (update_where p f ns)
All-update_where P Q p f hit miss [] h = tt
All-update_where P Q p f hit miss (n ∷ ns) h = elim (Bool-cases (p n)) [
  | inl e ↦ rw e (hit n e, All-update_where P Q p f hit miss ns h.1)
  | inr e ↦ rw e (miss n e h.0, All-update_where P Q p f hit miss ns h.1)
]

-- The member of a message for a condition is there.
abbrev has_member : String → String → List Member → Bool
has_member condition_id id ms =
    any (λ m. (m.notification_id == id) && (m.condition_id == condition_id)) ms

-- The members that move to a replacement are of other conditions.
others :
    (condition_id id new : String) (ms : List Member)
    → has_member condition_id id (
        map {A = Member}
          (λ m. record m { notification_id = new })
          (filter_by (λ m. not (m.condition_id == condition_id)) ms))
      ≡ false
others condition_id id new [] = refl
others condition_id id new (m ∷ ms) = ground (arith, others condition_id id new ms)

module _ (fresh : String → String) (condition_id : String) (kind : Option TransitionKind)
    {F V : Type 0} where
  -- No replacement's identifier is in use for the condition.
  abbrev pub IsFresh : Database F V → Type 0
  IsFresh db = (id : String) → has_member condition_id (fresh id) db.members ≡ false

  cancel-members :
      (db : Database F V) (id asked : String)
      → has_member condition_id asked (cancel_message fresh condition_id db id).members
        ≡ has_member condition_id asked db.members
  unfolding cancel_message replace_message survivors_of
  cancel-members db id asked = ground (
    arith,
    any-append (λ m. (m.notification_id == asked) && (m.condition_id == condition_id)) db.members
        (map {A = Member} (λ m. record m { notification_id = fresh id })
          (survivors_of db condition_id id)),
    others condition_id asked (fresh id) (notification_members db id),
  )

  -- A message of the condition that could be sent, other than those that are still to be cancelled.
  abbrev is_left : Database F V → List String → Notification → Bool
  is_left db ids n =
      is_unsent n.status
      && wanted_kind kind n.transition
      && names_condition db condition_id n
      && not (contains ids n.id)

  abbrev Cleared : Database F V → List String → Type 0
  Cleared db ids = All (λ n. is_left db ids n ≡ false) db.notifications

  replaced :
      (db : Database F V) (ids : List String) (id payload : String) (ns : List Notification)
      → has_member condition_id (fresh id) db.members ≡ false
      → All (λ n. is_left db ids n ≡ false) (map (replacement (fresh id) payload) ns)
  replaced db ids id payload [] h = tt
  replaced db ids id payload (n ∷ ns) h = (ground arith, replaced db ids id payload ns h)

  replaced_or_not :
      (db : Database F V) (id : String) (ids : List String)
      → IsFresh db
      → Cleared db (id ∷ ids)
      → (go : Bool) (survivors : List Member)
      → All
          (λ n. is_left db (id ∷ ids) n ≡ false)
          (if go then replace_message db id (fresh id) survivors else db).notifications
  unfolding replace_message
  replaced_or_not db id ids new h true survivors =
      All-append (λ n. is_left db (id ∷ ids) n ≡ false) db.notifications _ h
        (replaced db (id ∷ ids) id _ (filter_by (λ n. n.id == id) db.notifications) (new id))
  replaced_or_not db id ids new h false survivors = h

  cancel_message-Cleared :
      (db : Database F V) (id : String) (ids : List String)
      → IsFresh db
      → Cleared db (id ∷ ids)
      → Cleared (cancel_message fresh condition_id db id) ids
  unfolding cancel_message replace_message
  cancel_message-Cleared db id ids new h =
      let db' = cancel_message fresh condition_id db id in
      let update =
        All-update_where (λ n. is_left db (id ∷ ids) n ≡ false) (λ n. is_left db' ids n ≡ false)
          (λ n. n.id == id) cancelled_row (λ n e. refl)
          (λ n e k. ground (arith, cancel-members db id n.id, eq_iff n.id id, eq_iff id n.id)) in
      let survivors = survivors_of db condition_id id in
      update _ (replaced_or_not db id ids new h (not (is_empty survivors)) survivors)

  cancel_messages-Cleared :
      (db : Database F V) (ids : List String)
      → IsFresh db
      → Cleared db ids
      → Cleared (cancel_messages fresh condition_id db ids) []
  unfolding cancel_messages
  cancel_messages-Cleared db [] new h = h
  cancel_messages-Cleared db (id ∷ ids) new h =
      cancel_messages-Cleared (cancel_message fresh condition_id db id) ids
        (λ asked. cancel-members db id (fresh asked) ∙ new asked)
        (cancel_message-Cleared db id ids new h)

  unsent_of-Cleared : (db : Database F V) → Cleared db (unsent_of db condition_id kind)
  unfolding unsent_of
  unsent_of-Cleared db =
      let q : Notification → Bool = λ n.
        is_unsent n.status && wanted_kind kind n.transition && names_condition db condition_id n in
      All-imp
        (λ n e. ground (
          arith,
          contains-ids (sort_with created_first (filter_by q db.notifications)) n.id,
          any-sort_with (λ x. x.id == n.id) created_first (filter_by q db.notifications),
        ))
        db.notifications (listed q db.notifications)

  -- Once the messages of a condition are cancelled, of one kind or of both, no message of that kind
  -- names the condition and could still be sent; the identifiers of replacements must be new.
  pub cancel_unsent_condition-none :
      (db : Database F V)
      → ((id : String) → has_member condition_id (fresh id) db.members ≡ false)
      → let db' = cancel_unsent_condition fresh db condition_id kind in
        All
          (λ n.
            (is_unsent n.status
              && wanted_kind kind n.transition
              && names_condition db' condition_id n)
            ≡ false)
          db'.notifications
  unfolding cancel_unsent_condition
  cancel_unsent_condition-none db new =
      All-imp (λ n e. ground arith) _
        (cancel_messages-Cleared db (unsent_of db condition_id kind) new (unsent_of-Cleared db))
