-- ===== src/Analysis/Verdicts.antt =====
-- When the declared policy is met: the verdicts of the filters, the rewrites and the protection
-- (crates/sentinel-core/src/analysis.rs).
use mathlib.Core.Bool.{beq}
use adguard_sentinel.Base.{
  ◌*◌, ◌≡◌, refl, ap, ◌∙◌, ℕ, String, Option, none, some, Bool, true, false, not, ◌&&◌, ◌||◌, ◌↔◌,
  ◌≢◌, arith, List, [], ◌∷◌, map, ◌==◌, eq_iff, any, All, All-imp, if◌then◌else◌, lookup, insert,
  lookup-insert, unwrap_or, Bool-cases, Option-cases, inl, inr,
}
use adguard_sentinel.Base.Order.{IsApart}
use adguard_sentinel.Config.Types.{TargetConfig, ConditionProfile, PolicyConfig, RequiredFilter}
use adguard_sentinel.Model.Condition.{ConditionEvaluation, EvaluationOutcome}
use adguard_sentinel.Model.Observation.{TargetReport, FilterObservation}
use adguard_sentinel.Base.Int.{ℤ, pos, leb_ℤ, ltb_ℤ, saturating_sub_i64}
use adguard_sentinel.Analysis.Evaluation.{evaluation}
use adguard_sentinel.Analysis.Policy.{collect_filters, filters_by_url}
use adguard_sentinel.Analysis.Filter.{is_stale, filter_verdict, evaluate_filter, evaluate_filters}
use adguard_sentinel.Analysis.Target.{protection_verdict}

pub any-none {ℓ} :
    {A : Type ℓ} (p q : A → Bool) (xs : List A)
    → All (λ x. p x ≡ false) xs
    → any (λ x. p x && q x) xs ≡ false
any-none p q [] h = refl
any-none p q (x ∷ xs) h = ground (arith, h.0, any-none p q xs h.1)

-- What is asked of a row that a map may have.
abbrev pub holds {ℓ} : {A : Type ℓ} → (A → Bool) → Option A → Bool
holds q none = false
holds q (some a) = q a

-- The verdict of a requirement.
abbrev pub outcome_if : Bool → EvaluationOutcome
outcome_if met = if met then EvaluationOutcome.clear else EvaluationOutcome.active

-- No two filters share a URL, as the accepted filters of a target do not.
abbrev pub same_url : FilterObservation → FilterObservation → Bool
same_url a b = a.url == b.url

-- The filter is the required one, in the declared state, and updated within the hours that the
-- policy gives it, where it is declared enabled.
abbrev pub keeps : RequiredFilter → ℤ → FilterObservation → Bool
keeps required now f =
    beq f.enabled required.enabled
    && (not required.enabled || elim f.last_updated_unix_seconds [
      | none ↦ false
      | some updated ↦
          leb_ℤ (saturating_sub_i64 now updated)
            (pos (unwrap_or required.maximum_age_hours 0 * 3600))
    ])

lookup-holds :
    (u : String) (q : FilterObservation → Bool) (m : List (String × FilterObservation))
    (fs : List FilterObservation)
    → IsApart same_url fs
    → holds q (lookup u (collect_filters m fs)) ≡ (
        any (λ f. (f.url == u) && q f) fs
        || (not (any (λ f. (f.url == u) && true) fs) && holds q (lookup u m)))
lookup-holds u q m [] apart = refl
lookup-holds u q m (f ∷ fs) apart =
    let step = lookup-holds u q (insert f.url f m) fs apart.1 in
    elim (Bool-cases (f.url == u)) [
      | inl here ↦
          (let others : All (λ b. (FilterObservation.url b == u) ≡ false) fs =
              All-imp (λ b e. ground (arith, eq_iff f.url u, eq_iff b.url u, eq_iff f.url b.url)) fs
                apart.0 in
            ground (
              arith,
              step,
              lookup-insert f.url u f m,
              any-none (λ b. FilterObservation.url b == u) q fs others,
              any-none (λ b. FilterObservation.url b == u) (λ b. true) fs others,
            ))
      | inr there ↦ ground (arith, step, lookup-insert f.url u f m)
    ]

not_past : (age limit : ℤ) → ltb_ℤ limit age ≡ not (leb_ℤ age limit)
not_past age limit = ground arith

filter_verdict_lem :
    (target : TargetConfig) (required : RequiredFilter) (filter : Option FilterObservation)
    (now : ℤ)
    → (filter_verdict target required filter now).outcome
      ≡ outcome_if (holds (keeps required now) filter)
unfolding filter_verdict is_stale
filter_verdict_lem target required none now = refl
filter_verdict_lem target required (some f) now = elim (Option-cases f.last_updated_unix_seconds) [
  | inl e ↦ ground (arith, e)
  | inr (updated, e) ↦ ground (
    arith,
    e,
    not_past (saturating_sub_i64 now updated) (pos (unwrap_or required.maximum_age_hours 0 * 3600)),
  )
]

module _ (sha256 : String → List ℕ) (F : Type 0) where
  filter_lem :
      (target : TargetConfig) (profile : ConditionProfile) (fs : List FilterObservation) (now : ℤ)
      (required : RequiredFilter)
      → IsApart same_url fs
      → (evaluate_filter sha256 {F = F} target profile (filters_by_url fs) now required).outcome
        ≡ outcome_if (any (λ f. (f.url == required.url) && keeps required now f) fs)
  unfolding evaluate_filter evaluation filters_by_url lookup
  filter_lem target profile fs now required apart =
      filter_verdict_lem target required (lookup required.url (collect_filters [] fs)) now
      ∙ ap outcome_if (ground (arith, lookup-holds required.url (keeps required now) [] fs apart))

  -- On a target whose filters have distinct URLs, each required filter is clear exactly if the
  -- target has it in the declared state and, where it is declared enabled, with a known update no
  -- longer ago than the hours that are allowed; otherwise it is active.
  pub evaluate_filters_lem :
      (target : TargetConfig) (policy : PolicyConfig) (profile : ConditionProfile)
      (report : TargetReport F) (now : ℤ)
      → IsApart same_url report.filters
      → map
          (λ e. ConditionEvaluation.outcome e)
          (evaluate_filters sha256 {F = F} target policy profile report now)
        ≡ map
            (λ required. outcome_if (
              any
                (λ f. (FilterObservation.url f == required.url) && keeps required now f)
                report.filters))
            policy.filters
  unfolding evaluate_filters
  evaluate_filters_lem target policy profile report now apart = go policy.filters
    where
      go :
          (rs : List RequiredFilter)
          → map
              (λ e. ConditionEvaluation.outcome e)
              (map
                (evaluate_filter sha256 {F = F} target profile (filters_by_url report.filters) now)
                rs)
            ≡ map
                (λ required. outcome_if (
                  any
                    (λ f. (FilterObservation.url f == required.url) && keeps required now f)
                    report.filters))
                rs
      go [] = refl
      go (r ∷ rs) = rw (filter_lem target profile report.filters now r apart, go rs) refl

-- The protection alerts exactly where the observed state is not the declared one, and its reason
-- names the observed state.
pub protection_iff :
    (target : TargetConfig) (declared observed : Bool)
    → (((protection_verdict target declared observed).outcome ≡ EvaluationOutcome.active)
        ↔ (declared ≢ observed))
unfolding protection_verdict
protection_iff target declared observed = ground arith
