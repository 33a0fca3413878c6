-- ===== src/Store/Committed.antt =====
-- What a committed run leaves behind: latches that followed `advance_condition`, and one run mode.
use adguard_sentinel.Base.{
  ℕ, ◌≡◌, ◌≢◌, refl, sym, ap, ◌∙◌, subst, String, Option, none, some, Bool, false, List, arith, All,
  map,
}
use mathlib.Core.Path.{ap₂}
use adguard_sentinel.Base.Float.{Float}
use adguard_sentinel.Base.Int.{ℤ}
use adguard_sentinel.Base.Result.{ok, ok-injective, ok_or, >>=-ok}
use adguard_sentinel.Config.Types.{Config}
use adguard_sentinel.Model.Run.{RunMode, same_mode, RunReport, OutboxMessage}
use adguard_sentinel.Latch.Invariant.{IsLatch}
use adguard_sentinel.Store.Tables.{Database, Timestamps, canonical_timestamp}
use adguard_sentinel.Store.Commit.{Advanced, upsert_states}
use adguard_sentinel.Store.Latches.{
  latch_of, find_evaluation, IsOncePer, next_of, nexts-IsLatch, All-upsert_states, latch_of-nexts,
}
use adguard_sentinel.Store.Loop.{advance_all-states, advance_all-mode}
use adguard_sentinel.Store.Frame.{Persisted, persist_cases}
use adguard_sentinel.Store.Run.{
  ensure_run_mode, bind_mode, check_run, advance_run, fill_run, persist, commit_run,
}

module _ (T : Timestamps) {F V : Type 0} where
  check_run-times :
      (db : Database F V) (report : RunReport F V) (times : String × String)
      → check_run T db report ≡ ok times
      → times.1 ≡ ok_or (canonical_timestamp T report.completed_at) ""
  unfolding check_run
  check_run-times db report times h = ground arith

  check_run-mode :
      (db : Database F V) (report : RunReport F V) (times : String × String)
      → check_run T db report ≡ ok times
      → ensure_run_mode db.run_mode report.mode ≡ ok tt
  unfolding check_run
  check_run-mode db report times h = ground arith

-- The mode that is bound stays bound, and it is the run's.
bound_mode :
    (bound : Option RunMode) (mode other : RunMode)
    → ensure_run_mode bound mode ≡ ok tt
    → same_mode mode other ≡ false
    → ensure_run_mode (bind_mode bound mode) other ≢ ok tt
unfolding ensure_run_mode
bound_mode none mode other h apart = ground arith
bound_mode (some existing) mode other h apart = ground arith

module _ (T : Timestamps) (fl : Float) (uuid : ℕ → String) (fresh : String → String)
    {V : Type 0} where
  open fl use {F}

  -- What a commit that succeeded went through.
  pub record Steps (db : Database F V) (report : RunReport F V) (suppress : Bool)
      (out : Database F V × RunReport F V × List OutboxMessage) : Type 0 where
    pub times : String × String
    pub checked : check_run T db report ≡ ok times
    pub advanced : Advanced F V
    pub looped : advance_run T fl uuid fresh db report times.1 suppress ≡ ok advanced
    pub filled : RunReport F V × List OutboxMessage
    pub made : filled ≡ fill_run T fl uuid fresh advanced report times suppress
    pub persisted : Persisted T fl advanced filled.0 filled.1 out.0
    pub returned : out.2 ≡ filled.1

  Steps-made :
      (db : Database F V) (report : RunReport F V) (suppress : Bool)
      (out : Database F V × RunReport F V × List OutboxMessage) (times : String × String)
      → check_run T db report ≡ ok times
      → (advanced : Advanced F V)
      → advance_run T fl uuid fresh db report times.1 suppress ≡ ok advanced
      → (db' : Database F V)
      → (
        db',
        (fill_run T fl uuid fresh advanced report times suppress).0,
        (fill_run T fl uuid fresh advanced report times suppress).1,
      )
        ≡ out
      → Persisted T fl advanced
          (fill_run T fl uuid fresh advanced report times suppress).0
          (fill_run T fl uuid fresh advanced report times suppress).1
          db'
      → Steps db report suppress out
  Steps-made db report suppress out times checked advanced looped db' whole persisted = record {
    times = times;
    checked = checked;
    advanced = advanced;
    looped = looped;
    filled = fill_run T fl uuid fresh advanced report times suppress;
    made = refl;
    returned = ap (λ o. o.2) (sym whole);
    persisted =
        subst
          (Persisted T fl advanced (fill_run T fl uuid fresh advanced report times suppress).0
            (fill_run T fl uuid fresh advanced report times suppress).1)
          (ap (λ o. o.0) whole) persisted;
  }

  pub commit_run-Steps :
      (db : Database F V) (report : RunReport F V) (config : Config) (now : ℤ) (retention : String)
      (suppress : Bool) (out : Database F V × RunReport F V × List OutboxMessage)
      → commit_run T fl uuid fresh db report config now retention suppress ≡ ok out
      → Steps db report suppress out
  unfolding commit_run
  commit_run-Steps db report config now retention suppress out h =
      let (times, h1, k1) = >>=-ok (check_run T db report) _ out h in
      let (advanced, h2, k2) =
        >>=-ok (advance_run T fl uuid fresh db report times.1 suppress) _ out k1 in
      let filled = fill_run T fl uuid fresh advanced report times suppress in
      let (db', h3, k3) =
        >>=-ok (persist T fl advanced filled.0 filled.1 config now retention) _ out k2 in
      Steps-made db report suppress out times h1 advanced h2 db'
        (ok-injective (db', filled.0, filled.1) out k3)
        (persist_cases T fl advanced filled.0 filled.1 config now retention db' h3)

  commit-states :
      (db : Database F V) (report : RunReport F V) (config : Config) (now : ℤ) (retention : String)
      (suppress : Bool) (out : Database F V × RunReport F V × List OutboxMessage)
      → commit_run T fl uuid fresh db report config now retention suppress ≡ ok out
      → (times : String × String) × (check_run T db report ≡ ok times)
        × (out.0.states
            ≡ upsert_states
                (map (next_of times.1 report.run_id suppress db.states) report.evaluations)
                db.states)
  unfolding advance_run
  commit-states db report config now retention suppress out h =
      let s = commit_run-Steps db report config now retention suppress out h in
      let (nexts, kept) =
        advance_all-states fresh s.times.1 report.run_id suppress db.states
          (record db { run_mode = bind_mode db.run_mode report.mode }) report.evaluations s.advanced
          refl s.looped in
      (s.times, s.checked, s.persisted.stated ∙ ap₂ upsert_states nexts kept)

  -- A run that commits keeps every latch of the store well formed.
  pub commit_run-IsLatch :
      (db : Database F V) (report : RunReport F V) (config : Config) (now : ℤ) (retention : String)
      (suppress : Bool) (out : Database F V × RunReport F V × List OutboxMessage)
      → All IsLatch db.states
      → commit_run T fl uuid fresh db report config now retention suppress ≡ ok out
      → All IsLatch out.0.states
  commit_run-IsLatch db report config now retention suppress out latches h =
      let (times, _, states) = commit-states db report config now retention suppress out h in
      subst (All IsLatch) (sym states) (
        All-upsert_states IsLatch _ db.states
          (nexts-IsLatch times.1 report.run_id suppress db.states report.evaluations latches)
          latches)

  -- The store refines a function from conditions to latches: where no condition is evaluated twice, a
  -- run that commits at its canonical time of completion makes of the latch of each evaluated
  -- condition what `advance_condition` makes of it, or of a fresh one where there was none, with no
  -- alert owed for an episode that ended before its alert was sent; all other latches stay.
  pub commit_run-latch_of :
      (db : Database F V) (report : RunReport F V) (config : Config) (now : ℤ) (retention : String)
      (suppress : Bool) (out : Database F V × RunReport F V × List OutboxMessage) (id : String)
      → IsOncePer report.evaluations
      → commit_run T fl uuid fresh db report config now retention suppress ≡ ok out
      → latch_of out.0.states id ≡ (elim (find_evaluation report.evaluations id) [
        | none ↦ latch_of db.states id
        | some e ↦ some (
            next_of
              (ok_or (canonical_timestamp T report.completed_at) "")
              report.run_id
              suppress
              db.states
              e)
      ])
  commit_run-latch_of db report config now retention suppress out id once h =
      let (times, checked, states) = commit-states db report config now retention suppress out h in
      let ended = check_run-times T db report times checked in
      ap (λ ss. latch_of ss id) states
      ∙ latch_of-nexts times.1 report.run_id suppress db.states db.states report.evaluations id once
      ∙ ap
          (λ (at' : String). elim (find_evaluation report.evaluations id) [
            | none ↦ latch_of db.states id
            | some e ↦ some (next_of at' report.run_id suppress db.states e)
          ])
          ended

  looped-mode :
      (db : Database F V) (report : RunReport F V) (completed : String) (suppress : Bool)
      (advanced : Advanced F V)
      → advance_run T fl uuid fresh db report completed suppress ≡ ok advanced
      → advanced.db.run_mode ≡ bind_mode db.run_mode report.mode
  unfolding advance_run
  looped-mode db report completed suppress advanced h =
      advance_all-mode fresh completed report.run_id suppress
        (record db { run_mode = bind_mode db.run_mode report.mode }) report.evaluations advanced h

  -- A store that a run of one mode was committed to takes no run of the other mode.
  pub commit_run_other_mode :
      (db : Database F V) (report : RunReport F V) (config : Config) (now : ℤ) (retention : String)
      (suppress : Bool) (out : Database F V × RunReport F V × List OutboxMessage)
      (later : RunReport F V) (config' : Config) (now' : ℤ) (retention' : String) (suppress' : Bool)
      (out' : Database F V × RunReport F V × List OutboxMessage)
      → commit_run T fl uuid fresh db report config now retention suppress ≡ ok out
      → same_mode report.mode later.mode ≡ false
      → commit_run T fl uuid fresh out.0 later config' now' retention' suppress' ≢ ok out'
  commit_run_other_mode db report config now retention suppress out later config' now' retention'
        suppress' out' h other h' =
      let s = commit_run-Steps db report config now retention suppress out h in
      let s' = commit_run-Steps out.0 later config' now' retention' suppress' out' h' in
      bound_mode db.run_mode report.mode later.mode (check_run-mode T db report s.times s.checked)
        other
        (subst (λ bound. ensure_run_mode bound later.mode ≡ ok tt)
          (s.persisted.moded ∙ looped-mode db report s.times.1 suppress s.advanced s.looped)
          (check_run-mode T out.0 later s'.times s'.checked))
