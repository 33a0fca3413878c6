-- ===== src/Outbox/Batching.antt =====
-- What the loop of `build_outbox` keeps: the messages that it made carry what it went through.
use text.Mathlib.TextLemmas.{length-append as count-append}
use adguard_sentinel.Base.{
  ◌+◌, ◌-◌, ◌≤◌, ◌≡◌, ◌≢◌, refl, String, ◌<>◌, count, Bool, true, false, not, ◌&&◌, List, [], ◌∷◌,
  ◌++◌, map, map-append, arith, ltb, if◌then◌else◌, is_empty, join, take_chars, count-join_snoc,
  count-take_chars,
}
use adguard_sentinel.Model.Condition.{ConditionTransition}
use adguard_sentinel.Model.Run.{OutboxMessage}
use adguard_sentinel.Outbox.Batch.{Batching, message_limit, suffix, notification_line, add_line}

-- A line fits into a message.
pub notification_line-le : (summary : String) → count (notification_line summary) ≤ message_limit
unfolding notification_line
notification_line-le summary = ground (
  arith,
  count-append (take_chars (message_limit - count suffix) ("- " <> summary)) suffix,
  count-take_chars (message_limit - count suffix) ("- " <> summary),
)

abbrev pub ids : List ConditionTransition → List String
ids = map (λ t. t.condition_id)

abbrev pub lines_of : List ConditionTransition → List String
lines_of = map (λ t. notification_line t.summary)

-- The message carries these transitions: their identifiers and their lines, whole
-- and in order, in at most 1024 characters.
pub record Carries (m : OutboxMessage) (batch : List ConditionTransition) : Type 0 where
  pub named : m.condition_ids ≡ ids batch
  pub worded : m.message ≡ join "\n" (lines_of batch)
  pub short : count m.message ≤ message_limit
  pub inhabited : batch ≢ []

-- The messages carry the transitions between them, each in one message, in order.
pub data Covers : List OutboxMessage → List ConditionTransition → Type 0 where
  nothing : Covers [] []
  message :
      {messages : List OutboxMessage} {ts : List ConditionTransition} (before : List OutboxMessage)
      (m : OutboxMessage) (done batch : List ConditionTransition)
      → Covers before done
      → Carries m batch
      → messages ≡ before ++ m ∷ []
      → ts ≡ done ++ batch
      → Covers messages ts

-- The loop has sent `done` and holds `pending`.
pub record IsBatching (b : Batching) (done pending : List ConditionTransition) : Type 0 where
  pub sent : Covers b.messages done
  pub held_ids : b.condition_ids ≡ ids pending
  pub held_lines : b.lines ≡ lines_of pending
  pub measured : b.length_so_far ≡ count (join "\n" b.lines)
  pub fits : b.length_so_far ≤ message_limit

pub lines-is_empty :
    (b : Batching) (done pending : List ConditionTransition)
    → IsBatching b done pending
    → is_empty b.lines ≡ is_empty pending
lines-is_empty b done [] h = rw (IsBatching.held_lines h)
lines-is_empty b done (t ∷ ts) h = rw (IsBatching.held_lines h)

pub count-join_empty : (ss : List String) → is_empty ss ≡ true → count (join "\n" ss) ≡ 0
unfolding join
count-join_empty [] h = refl
count-join_empty (s ∷ ss) h = cc

pub add_line-IsBatching :
    (b : Batching) (t : ConditionTransition) (done pending : List ConditionTransition)
    → IsBatching b done pending
    → (if not (is_empty b.lines) then b.length_so_far + 1 else b.length_so_far)
        + count (notification_line t.summary)
      ≤ message_limit
    → IsBatching (add_line b (notification_line t.summary) t.condition_id) done (pending ++ t ∷ [])
unfolding add_line
add_line-IsBatching b t done pending h room = record {
  sent = h.sent;
  held_ids = simp (map-append, h.held_ids);
  held_lines = simp (map-append, h.held_lines);
  measured = ground (
    arith,
    h.measured,
    count-join_empty b.lines,
    count-join_snoc "\n" b.lines (notification_line t.summary),
  );
  fits = room;
}

pub is_empty-snoc :
    (ts : List ConditionTransition) (t : ConditionTransition) → is_empty (ts ++ t ∷ []) ≡ false
is_empty-snoc [] t = refl
is_empty-snoc (x ∷ ts) t = refl

abbrev pub overflows : Batching → ConditionTransition → Bool
overflows b t =
    not (is_empty b.lines)
    && ltb message_limit (b.length_so_far + 1 + count (notification_line t.summary))

pub held_some :
    (b : Batching) (t : ConditionTransition) (done pending : List ConditionTransition)
    → IsBatching b done pending
    → overflows b t ≡ true
    → pending ≢ []
held_some b t done [] h full e = ground (arith, lines-is_empty b done [] h)
held_some b t done (x ∷ xs) h full e = cc

pub room_left :
    (b : Batching) (t : ConditionTransition) (done pending : List ConditionTransition)
    → IsBatching b done pending
    → overflows b t ≡ false
    → (if not (is_empty b.lines) then b.length_so_far + 1 else b.length_so_far)
        + count (notification_line t.summary)
      ≤ message_limit
room_left b t done pending h room =
    ground (arith, h.measured, count-join_empty b.lines, notification_line-le t.summary)

pub room_after_flush :
    (t : ConditionTransition) → 0 + count (notification_line t.summary) ≤ message_limit
room_after_flush t = omega (arith, notification_line-le t.summary)
