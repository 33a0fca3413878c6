-- ===== src/Analysis/Measures.antt =====
-- What a measurement window is a window of: `window_between` and `combined_readings`
-- (crates/sentinel-core/src/analysis.rs).
use adguard_sentinel.Base.{
  ℕ, ◌+◌, ◌≡◌, refl, ◌∙◌, subst, String, Option, some, Bool, true, false, ◌&&◌, List, [], ◌∷◌,
  arith, ◌⊎◌, ◌==◌, lookup, insert, lookup-insert, contains, filter_by, Option-cases, inl, inr,
  eq_iff, Bool-cases,
}
use adguard_sentinel.Base.Int.{sub_i64}
use adguard_sentinel.Base.Float.{Float}
use adguard_sentinel.Base.Opt.{◌>>=◌}
use adguard_sentinel.Model.Observation.{TargetSample}
use adguard_sentinel.Analysis.Window.{
  Reading, RateWindow, window_between, Entry, Combining, add_member, combine_sample,
  combine_samples, entry_of, entry_or_new, order_of,
}

module _ (fl : Float) (previous current : Reading) (hour : ℕ) where
  open fl use {F, of_i64}

  -- A window counts exactly what the counter grew by, over exactly the time that passed.
  pub window_exact :
      (w : RateWindow F)
      → window_between fl previous current hour ≡ some w
      → (previous.1 + w.queries ≡ current.1)
        × (w.elapsed_seconds ≡ of_i64 (sub_i64 current.0 previous.0))
        × (w.local_hour ≡ hour)
  unfolding window_between
  window_exact w h = ground arith

-- The samples of one run that the group counts.
abbrev pub is_of : List String → String → TargetSample → Bool
is_of target_ids run sample = contains target_ids sample.target_id && (sample.run_id == run)

-- One run's samples, taken alone.
unfoldable pub entry_alone : Option Entry → List TargetSample → Option (Option Entry)
entry_alone e [] = some e
entry_alone e (s ∷ ss) = do e' ← add_member (entry_or_new e s) s; entry_alone (some e') ss

module _ (target_ids : List String) where
  -- A step leaves the state, or replaces the entry of the sample's run.
  combine_cases :
      (c c' : Combining) (s : TargetSample)
      → combine_sample target_ids c s ≡ some c'
      → ((contains target_ids s.target_id ≡ false) × (c' ≡ c))
        ⊎ ((contains target_ids s.target_id ≡ true)
            × (e : Entry) × (add_member (entry_of c s) s ≡ some e)
            × (c' ≡ record { order = order_of c s; per_run = insert s.run_id e c.per_run }))
  unfolding combine_sample
  combine_cases c c' s h = elim (Bool-cases (contains target_ids s.target_id)) [
    | inl t ↦ elim (Option-cases (add_member (entry_of c s) s)) [
      | inl n ↦ ground (arith, t, n)
      | inr (e, m) ↦ inr (t, e, m, ground (arith, t, m))
    ]
    | inr f ↦ inl (f, ground (arith, f))
  ]

  -- The state that a step makes has, for every run, the entry that the sample makes of it.
  step_alone :
      (run : String) (c d : Combining) (s : TargetSample) (rest : List TargetSample)
      → combine_sample target_ids c s ≡ some d
      → entry_alone (lookup run c.per_run) (filter_by (is_of target_ids run) (s ∷ rest))
        ≡ entry_alone (lookup run d.per_run) (filter_by (is_of target_ids run) rest)
  unfolding entry_alone
  step_alone run c d s rest step = elim (combine_cases c d s step) [
    | inl (f, same) ↦ rw (f, same) refl
    | inr (t, e, m, same) ↦
        rw (same, lookup-insert s.run_id run e c.per_run)
          (elim (Bool-cases (s.run_id == run)) [
            | inl here ↦
                (let m' : add_member (entry_or_new (lookup run c.per_run) s) s ≡ some e =
                    subst (λ r. add_member (entry_or_new (lookup r c.per_run) s) s ≡ some e)
                      ((eq_iff s.run_id run).0 here) m in
                  rw (t, here, m') refl)
            | inr other ↦ rw (t, other) refl
          ])
  ]

  -- A run's entry is what its own samples give, taken alone and in their order: the samples of the
  -- other runs that lie between them do not matter.
  pub combine_samples-alone :
      (run : String) (c c' : Combining) (ss : List TargetSample)
      → combine_samples target_ids c ss ≡ some c'
      → entry_alone (lookup run c.per_run) (filter_by (is_of target_ids run) ss)
        ≡ some (lookup run c'.per_run)
  unfolding combine_samples entry_alone
  combine_samples-alone run c c' [] h = ground arith
  combine_samples-alone run c c' (s ∷ ss) h = elim (Option-cases (combine_sample target_ids c s)) [
    | inl n ↦ ground (arith, n)
    | inr (d, step) ↦
        step_alone run c d s ss step ∙ combine_samples-alone run d c' ss (ground (arith, step))
  ]
