-- ===== src/Store/Latches.antt =====
-- The latches of the store through a run: each follows `advance_condition`.
use adguard_sentinel.Base.{
  ◌≡◌, refl, ap, ◌∙◌, subst, String, Option, none, some, Bool, false, List, [], ◌∷◌, map, arith,
  ◌==◌, eq_iff, if◌then◌else◌, find_by, All, Bool-cases, Option-cases, inl, inr,
}
use mathlib.Core.Option.{some-injective}
use adguard_sentinel.Base.Result.{ok}
use adguard_sentinel.Model.Condition.{ConditionEvaluation, ConditionState, from_evaluation}
use adguard_sentinel.Latch.Advance.{Seen, advance_condition, advance, state_after}
use adguard_sentinel.Latch.Invariant.{IsLatch, from_evaluation-IsLatch, state_after-IsLatch}
use adguard_sentinel.Store.Commit.{
  load_condition_state, upsert_condition_state, upsert_states, loaded_or_new, ends_unsent,
  forget_state,
}

-- The latch of a condition, as the table has it.
abbrev pub latch_of : List ConditionState → String → Option ConditionState
latch_of states id = find_by (λ s. s.id == id) states

abbrev pub find_evaluation :
    {V : Type 0} → List (ConditionEvaluation V) → String → Option (ConditionEvaluation V)
find_evaluation evaluations id = find_by (λ e. e.id == id) evaluations

-- No two evaluations of a run are of one condition.
abbrev pub IsOncePer : {V : Type 0} → List (ConditionEvaluation V) → Type 0
IsOncePer [] = Unit
IsOncePer (e ∷ es) = All (λ e'. (e'.id == e.id) ≡ false) es × IsOncePer es

module _ (observed_at run_id : String) (suppress : Bool) {V : Type 0} where
  abbrev seen : ConditionEvaluation V → Seen V
  seen e = record {
    evaluation = e;
    observed_at = observed_at;
    run_id = run_id;
    suppress = suppress;
  }

  -- What the run makes of a latch: `advance_condition`, and no alert is owed for an episode that
  -- ends before its alert was sent.
  unfoldable pub next_latch : ConditionEvaluation V → Option ConditionState → ConditionState
  next_latch e found =
      let previous = loaded_or_new e found in
      let state = state_after previous (seen e) in
      if ends_unsent e previous state then forget_state state else state

  next_latch-IsLatch :
      (e : ConditionEvaluation V) (previous : ConditionState)
      → IsLatch previous
      → IsLatch (next_latch e (some previous))
  unfolding next_latch
  next_latch-IsLatch e previous h = ground (arith, state_after-IsLatch previous (seen e) h)

  next_latch-id :
      (e : ConditionEvaluation V) (found : Option ConditionState)
      → (loaded_or_new e found).id ≡ e.id
      → (next_latch e found).id ≡ e.id
  unfolding next_latch state_after advance_condition advance
  next_latch-id e found h = ground arith

found_id :
    (states : List ConditionState) (id : String) (s : ConditionState)
    → latch_of states id ≡ some s
    → s.id ≡ id
found_id [] id s h = ground arith
found_id (t ∷ ts) id s h = ground (arith, eq_iff t.id id, found_id ts id s)

found-All {κ} :
    (P : ConditionState → Type κ) (states : List ConditionState) (id : String) (s : ConditionState)
    → latch_of states id ≡ some s
    → All P states
    → P s
found-All P [] id s found h = cc
found-All P (t ∷ ts) id s found h = elim (Bool-cases (t.id == id)) [
  | inl e ↦ subst P (some-injective t s (rw e at found)) h.0
  | inr e ↦ found-All P ts id s (rw e at found) h.1
]

-- What is loaded is what the table has.
pub load-ok :
    (states : List ConditionState) (id : String) (loaded : Option ConditionState)
    → load_condition_state states id ≡ ok loaded
    → loaded ≡ latch_of states id
unfolding load_condition_state
load-ok states id loaded h = elim (Option-cases (latch_of states id)) [
  | inl e ↦ ground arith
  | inr (s, e) ↦ ground arith
]

latch_of-upsert :
    (s : ConditionState) (table : List ConditionState) (id : String)
    → latch_of (upsert_condition_state s table) id
      ≡ (if s.id == id then some s else latch_of table id)
unfolding upsert_condition_state
latch_of-upsert s [] id = refl
latch_of-upsert s (t ∷ ts) id =
    ground (arith, eq_iff t.id s.id, eq_iff s.id id, eq_iff t.id id, latch_of-upsert s ts id)

All-upsert {κ} :
    (P : ConditionState → Type κ) (s : ConditionState) (table : List ConditionState)
    → P s
    → All P table
    → All P (upsert_condition_state s table)
unfolding upsert_condition_state
All-upsert P s [] p h = (p, tt)
All-upsert P s (t ∷ ts) p h = elim (Bool-cases (t.id == s.id)) [
  | inl e ↦ rw e (p, h.1)
  | inr e ↦ rw e (h.0, All-upsert P s ts p h.1)
]

pub All-upsert_states {κ} :
    (P : ConditionState → Type κ) (ss table : List ConditionState)
    → All P ss
    → All P table
    → All P (upsert_states ss table)
unfolding upsert_states
All-upsert_states P [] table h k = k
All-upsert_states P (s ∷ ss) table h k =
    All-upsert_states P ss (upsert_condition_state s table) h.1 (All-upsert P s table h.0 k)

module _ (observed_at run_id : String) (suppress : Bool) {V : Type 0} where
  -- The next latch of a condition that is evaluated, from the table before the run.
  abbrev pub next_of : List ConditionState → ConditionEvaluation V → ConditionState
  next_of states e = next_latch observed_at run_id suppress e (latch_of states e.id)

  next_of-IsLatch :
      (states : List ConditionState) (e : ConditionEvaluation V)
      → All IsLatch states
      → IsLatch (next_of states e)
  unfolding next_latch
  next_of-IsLatch states e h = elim (Option-cases (latch_of states e.id)) [
    | inl none_there ↦ rw none_there (
        next_latch-IsLatch observed_at run_id suppress e (from_evaluation e)
          (from_evaluation-IsLatch e))
    | inr (s, there) ↦ rw there (
        next_latch-IsLatch observed_at run_id suppress e s
          (found-All IsLatch states e.id s there h))
  ]

  pub nexts-IsLatch :
      (states : List ConditionState) (es : List (ConditionEvaluation V))
      → All IsLatch states
      → All IsLatch (map (next_of states) es)
  nexts-IsLatch states [] h = tt
  nexts-IsLatch states (e ∷ es) h = (next_of-IsLatch states e h, nexts-IsLatch states es h)

  next_of-id :
      (states : List ConditionState) (e : ConditionEvaluation V) → (next_of states e).id ≡ e.id
  unfolding from_evaluation
  next_of-id states e =
      next_latch-id observed_at run_id suppress e (latch_of states e.id)
        (elim (Option-cases (latch_of states e.id)) [
          | inl none_there ↦ rw none_there refl
          | inr (s, there) ↦ rw there (found_id states e.id s there)
        ])

  absent-upsert_states :
      (states table : List ConditionState) (es : List (ConditionEvaluation V)) (id : String)
      → All (λ e. (e.id == id) ≡ false) es
      → latch_of (upsert_states (map (next_of states) es) table) id ≡ latch_of table id
  unfolding upsert_states
  absent-upsert_states states table [] id h = refl
  absent-upsert_states states table (e ∷ es) id h =
      absent-upsert_states states (upsert_condition_state (next_of states e) table) es id h.1
      ∙ latch_of-upsert (next_of states e) table id
      ∙ rw (next_of-id states e, h.0) refl

  -- The table of the latches after the upserts, seen as a function of the condition.
  pub latch_of-nexts :
      (states table : List ConditionState) (es : List (ConditionEvaluation V)) (id : String)
      → IsOncePer es
      → latch_of (upsert_states (map (next_of states) es) table) id ≡ elim (find_evaluation es id) [
        | none ↦ latch_of table id
        | some e ↦ some (next_of states e)
      ]
  unfolding upsert_states
  latch_of-nexts states table [] id once = refl
  latch_of-nexts states table (e ∷ es) id once = elim (Bool-cases (e.id == id)) [
    | inl hit ↦ rw hit (
        absent-upsert_states states (upsert_condition_state (next_of states e) table) es id
          (subst (λ i. All (λ e'. (e'.id == i) ≡ false) es) ((eq_iff e.id id).0 hit) once.0)
        ∙ latch_of-upsert (next_of states e) table id
        ∙ rw (next_of-id states e, hit) refl)
    | inr miss ↦
        (let after : latch_of (upsert_condition_state (next_of states e) table) id
              ≡ latch_of table id =
            latch_of-upsert (next_of states e) table id ∙ rw (next_of-id states e, miss) refl in
          rw miss (
            latch_of-nexts states (upsert_condition_state (next_of states e) table) es id once.1
            ∙ ap
                (λ (o : Option ConditionState). elim (find_evaluation es id) [
                  | none ↦ o
                  | some e' ↦ some (next_of states e')
                ])
                after))
  ]
