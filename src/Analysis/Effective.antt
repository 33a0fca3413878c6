-- ===== src/Analysis/Effective.antt =====
-- When the required rewrites of a policy are met: `evaluate_rewrites`
-- (crates/sentinel-core/src/analysis.rs).
use mathlib.Core.Bool.{beq}
use adguard_sentinel.Base.{
  ◌≡◌, refl, ap, ◌∙◌, ℕ, String, Option, none, some, Bool, true, false, not, ◌&&◌, ◌||◌, arith,
  List, [], ◌∷◌, ◌==◌, eq_iff, any, All, All-imp, is_some, Bool-cases, Option-cases, inl, inr,
}
use adguard_sentinel.Base.Order.{IsApart}
use adguard_sentinel.Config.Names.{normalize_dns_name, normalize_rewrite_answer}
use adguard_sentinel.Config.Types.{TargetConfig, ConditionProfile, RequiredRewrite}
use adguard_sentinel.Model.Observation.{TargetReport, RewriteObservation}
use adguard_sentinel.Analysis.Evaluation.{evaluation}
use adguard_sentinel.Analysis.Rewrite.{
  Key, find_rewrite, observed_key, required_key, rewrite_verdict, evaluate_rewrite,
}
use adguard_sentinel.Analysis.Verdicts.{any-none, holds, outcome_if}

module _ (key_of : RewriteObservation → Key) where
  abbrev has_key : Key → RewriteObservation → Bool
  has_key key r = ((key_of r).0 == key.0) && ((key_of r).1 == key.1)

  find_rewrite-is_some :
      (key : Key) (rs : List RewriteObservation)
      → is_some (find_rewrite key_of key rs) ≡ any (λ r. has_key key r && true) rs
  unfolding find_rewrite
  find_rewrite-is_some key [] = refl
  find_rewrite-is_some key (r ∷ rs) = elim (Option-cases (find_rewrite key_of key rs)) [
    | inl e ↦ ground (arith, e, find_rewrite-is_some key rs)
    | inr (l, e) ↦ ground (arith, e, find_rewrite-is_some key rs)
  ]

  apart-has_key :
      (key : Key) (r b : RewriteObservation)
      → has_key key r ≡ true
      → has_key (key_of b) r ≡ false
      → has_key key b ≡ false
  apart-has_key key r b mine apart = ground (
    arith,
    eq_iff (key_of r).0 key.0,
    eq_iff (key_of r).1 key.1,
    eq_iff (key_of b).0 key.0,
    eq_iff (key_of b).1 key.1,
    eq_iff (key_of r).0 (key_of b).0,
    eq_iff (key_of r).1 (key_of b).1,
  )

  find_rewrite-holds :
      (key : Key) (q : RewriteObservation → Bool) (rs : List RewriteObservation)
      → IsApart (λ a b. has_key (key_of b) a) rs
      → holds q (find_rewrite key_of key rs) ≡ any (λ r. has_key key r && q r) rs
  unfolding find_rewrite
  find_rewrite-holds key q [] apart = refl
  find_rewrite-holds key q (r ∷ rs) apart =
      let later = find_rewrite-holds key q rs apart.1 in
      let found = find_rewrite-is_some key rs in
      elim (Bool-cases (has_key key r)) [
        | inl mine ↦
            (let others : All (λ b. has_key key b ≡ false) rs =
                All-imp (λ b e. apart-has_key key r b mine e) rs apart.0 in
              let none_there = any-none (has_key key) (λ b. true) rs others in
              let none_met = any-none (has_key key) q rs others in
              elim (Option-cases (find_rewrite key_of key rs)) [
                | inl e ↦ rw (e, mine, none_met) (ground arith)
                | inr (l, e) ↦ ground (arith, e, found, none_there)
              ])
        | inr other ↦ elim (Option-cases (find_rewrite key_of key rs)) [
          | inl e ↦ rw (e, other) (ground (arith, e, later))
          | inr (l, e) ↦ rw (e, other) (ground (arith, e, later))
        ]
      ]

module _ (canonical_ip : String → Option String) where
  -- Two rewrites share both the normalized domain and the normalized answer.
  abbrev pub same_rewrite : RewriteObservation → RewriteObservation → Bool
  same_rewrite a b =
      (normalize_dns_name a.domain == normalize_dns_name b.domain)
      && (normalize_rewrite_answer canonical_ip a.answer
          == normalize_rewrite_answer canonical_ip b.answer)

  -- The rewrite is the required one: of its domain and its answer, both normalized.
  abbrev pub is_required : RequiredRewrite → RewriteObservation → Bool
  is_required required r =
      (normalize_dns_name r.domain == normalize_dns_name required.domain)
      && (normalize_rewrite_answer canonical_ip r.answer
          == normalize_rewrite_answer canonical_ip required.answer)

-- It is in the declared state and, where it is declared enabled, the switch was read as on.
abbrev pub is_effective : RequiredRewrite → Option Bool → RewriteObservation → Bool
is_effective required switch r =
    beq r.enabled required.enabled
    && (not required.enabled || elim switch [ none ↦ false | some on ↦ on ])

rewrite_verdict_lem :
    (target : TargetConfig) (required : RequiredRewrite) (current : Option RewriteObservation)
    (switch : Option Bool)
    → (rewrite_verdict target required current switch).outcome
      ≡ outcome_if (holds (is_effective required switch) current)
unfolding rewrite_verdict
rewrite_verdict_lem target required none switch = refl
rewrite_verdict_lem target required (some r) none = ground arith
rewrite_verdict_lem target required (some r) (some on) = ground arith

module _ (sha256 : String → List ℕ) (canonical_ip : String → Option String) {F : Type 0} where
  -- On a target no two of whose rewrites share the normalized domain and answer, a required rewrite
  -- is clear exactly if the target has it, by both, in the declared state and, where it is declared
  -- enabled, the target's global switch was read as on; otherwise it is active.
  pub evaluate_rewrite_lem :
      (target : TargetConfig) (profile : ConditionProfile) (report : TargetReport F)
      (required : RequiredRewrite)
      → IsApart (same_rewrite canonical_ip) report.rewrites
      → (evaluate_rewrite sha256 canonical_ip target profile report required).outcome
        ≡ outcome_if (
            any
              (λ r.
                is_required canonical_ip required r
                && is_effective required report.rewrites_enabled r)
              report.rewrites)
  unfolding evaluate_rewrite evaluation observed_key required_key
  evaluate_rewrite_lem target profile report required apart =
      let key = required_key canonical_ip required in
      rewrite_verdict_lem target required
        (find_rewrite (observed_key canonical_ip) key report.rewrites) report.rewrites_enabled
      ∙ ap outcome_if (
          find_rewrite-holds (observed_key canonical_ip) key
            (is_effective required report.rewrites_enabled) report.rewrites apart)
