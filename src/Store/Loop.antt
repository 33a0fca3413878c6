-- ===== src/Store/Loop.antt =====
-- The loop of `commit_run` over the evaluations, by what it does to the latches.
use adguard_sentinel.Base.{
  ◌≡◌, refl, sym, ap, ◌∙◌, String, Option, none, some, Bool, List, [], ◌∷◌, map, arith,
}
use adguard_sentinel.Base.Result.{ok, ok-injective, >>=-ok}
use adguard_sentinel.Model.Condition.{ConditionEvaluation, ConditionState, TransitionKind}
use adguard_sentinel.Latch.Advance.{state_after}
use adguard_sentinel.Store.Tables.{Database}
use adguard_sentinel.Store.Cancel.{
  cancel_message, cancel_messages, cancel_unsent_condition, replace_message, unsent_of,
}
use adguard_sentinel.Store.Latches.{latch_of, next_latch, next_of, load-ok}
use adguard_sentinel.Store.Commit.{
  Advanced, load_condition_state, loaded_or_new, advance_one, advance_all,
}

module _ (fresh : String → String) {F V : Type 0} where
  cancel_messages-states :
      (id : String) (db : Database F V) (ids : List String)
      → (cancel_messages fresh id db ids).states ≡ db.states
  unfolding cancel_messages cancel_message replace_message
  cancel_messages-states id db [] = refl
  cancel_messages-states id db (m ∷ ms) =
      ground (arith, cancel_messages-states id (cancel_message fresh id db m) ms)

  -- To cancel messages changes no latch.
  pub cancel-states :
      (db : Database F V) (id : String) (kind : Option TransitionKind)
      → (cancel_unsent_condition fresh db id kind).states ≡ db.states
  unfolding cancel_unsent_condition
  cancel-states db id kind = cancel_messages-states id db (unsent_of db id kind)

  cancel_messages-mode :
      (id : String) (db : Database F V) (ids : List String)
      → (cancel_messages fresh id db ids).run_mode ≡ db.run_mode
  unfolding cancel_messages cancel_message replace_message
  cancel_messages-mode id db [] = refl
  cancel_messages-mode id db (m ∷ ms) =
      ground (arith, cancel_messages-mode id (cancel_message fresh id db m) ms)

  cancel-mode :
      (db : Database F V) (id : String) (kind : Option TransitionKind)
      → (cancel_unsent_condition fresh db id kind).run_mode ≡ db.run_mode
  unfolding cancel_unsent_condition
  cancel-mode db id kind = cancel_messages-mode id db (unsent_of db id kind)

  module _ (observed_at run_id : String) (suppress : Bool) where
    advance_one-latch :
        (db : Database F V) (e : ConditionEvaluation V) (found : Option ConditionState)
        → let step = advance_one fresh observed_at run_id suppress db e (loaded_or_new e found) in
          (step.0.states ≡ db.states) × (step.2 ≡ next_latch observed_at run_id suppress e found)
    unfolding advance_one next_latch state_after
    advance_one-latch db e found = ground (
      arith,
      cancel-states db e.id none,
      cancel-states db e.id (some TransitionKind.alert),
      cancel-states (cancel_unsent_condition fresh db e.id none) e.id (some TransitionKind.alert),
    )

    -- The loop hands on the next latches of the evaluated conditions, and leaves the table alone.
    pub advance_all-states :
        (states : List ConditionState) (db : Database F V) (es : List (ConditionEvaluation V))
        (advanced : Advanced F V)
        → db.states ≡ states
        → advance_all fresh observed_at run_id suppress db es ≡ ok advanced
        → (advanced.states ≡ map (next_of observed_at run_id suppress states) es)
          × (advanced.db.states ≡ states)
    unfolding advance_all
    advance_all-states states db [] advanced same h = ground arith
    advance_all-states states db (e ∷ es) advanced same h =
        let (loaded, found, h1) = >>=-ok (load_condition_state db.states e.id) _ advanced h in
        let step = advance_one fresh observed_at run_id suppress db e (loaded_or_new e loaded) in
        let (rest, later, h2) =
          >>=-ok (advance_all fresh observed_at run_id suppress step.0 es) _ advanced h1 in
        let (kept, moved) = advance_one-latch db e loaded in
        let (tail, unmoved) = advance_all-states states step.0 es rest (kept ∙ same) later in
        let whole = ok-injective _ advanced h2 in
        let head : step.2 ≡ next_of observed_at run_id suppress states e =
          moved
          ∙ ap (next_latch observed_at run_id suppress e)
              (load-ok db.states e.id loaded found ∙ ap (λ ss. latch_of ss e.id) same) in
        (
          ap (λ a. Advanced.states a) (sym whole)
              ∙ ap (λ s. s ∷ rest.states) head
              ∙ ap (λ ss. next_of observed_at run_id suppress states e ∷ ss) tail,
          ap (λ a. (Advanced.db a).states) (sym whole) ∙ unmoved,
        )

    advance_one-mode :
        (db : Database F V) (e : ConditionEvaluation V) (previous : ConditionState)
        → (advance_one fresh observed_at run_id suppress db e previous).0.run_mode ≡ db.run_mode
    unfolding advance_one
    advance_one-mode db e previous = ground (
      arith,
      cancel-mode db e.id none,
      cancel-mode db e.id (some TransitionKind.alert),
      cancel-mode (cancel_unsent_condition fresh db e.id none) e.id (some TransitionKind.alert),
    )

    -- The loop leaves the mode alone.
    pub advance_all-mode :
        (db : Database F V) (es : List (ConditionEvaluation V)) (advanced : Advanced F V)
        → advance_all fresh observed_at run_id suppress db es ≡ ok advanced
        → advanced.db.run_mode ≡ db.run_mode
    unfolding advance_all
    advance_all-mode db [] advanced h = ground arith
    advance_all-mode db (e ∷ es) advanced h =
        let (loaded, found, h1) = >>=-ok (load_condition_state db.states e.id) _ advanced h in
        let step = advance_one fresh observed_at run_id suppress db e (loaded_or_new e loaded) in
        let (rest, later, h2) =
          >>=-ok (advance_all fresh observed_at run_id suppress step.0 es) _ advanced h1 in
        ap (λ a. (Advanced.db a).run_mode) (sym (ok-injective _ advanced h2))
        ∙ advance_all-mode step.0 es rest later
        ∙ advance_one-mode db e (loaded_or_new e loaded)
