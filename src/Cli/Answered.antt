-- ===== src/Cli/Answered.antt =====
-- From the answers of a target to the evaluation of its `api` condition.
use adguard_sentinel.Base.{
  ℕ, ◌≡◌, refl, String, ◌<>◌, Option, none, some, Bool, true, false, List, [], ◌∷◌, map, arith,
  if◌then◌else◌, is_none, lookup, inl, inr, Option-cases, ◌&&◌, ◌≢◌,
}
use adguard_sentinel.Base.Int.{ℤ}
use adguard_sentinel.Base.Float.{Float}
use adguard_sentinel.Base.Opt.{◌>>=◌}
use adguard_sentinel.Base.Result.{Result, ok, err}
use adguard_sentinel.Config.Types.{Config, ConditionProfile, PolicyConfig, TargetConfig}
use adguard_sentinel.Model.Condition.{ConditionEvaluation, EvaluationOutcome}
use adguard_sentinel.Model.Observation.{TargetReport, TargetStatus, incomplete}
use adguard_sentinel.Model.Run.{TargetRuntimeState}
use adguard_sentinel.Adguard.Types.{AdGuardError, target_status}
use adguard_sentinel.Adguard.Observe.{Platform, observe}
use adguard_sentinel.Analysis.Target.{evaluate_target}
use adguard_sentinel.Analysis.Report.{
  is_usable, signature, first_signature, answered-api, failed-api,
}
use adguard_sentinel.Cli.Observe.{
  incomplete_report, paused_until, cooldown_report, report_of, observe_target,
}

abbrev pub is_ok {ℓ κ} : {E : Type κ} {A : Type ℓ} → Result E A → Bool
is_ok (ok _) = true
is_ok (err _) = false

first_of :
    {V : Type 0} (es : List (ConditionEvaluation V)) (x : String × String × EvaluationOutcome)
    → map signature es ≡ x ∷ []
    → first_signature es ≡ some x
first_of [] x h = ground arith
first_of (e ∷ es) x h = ground arith

module _ (fl : Float) (P : Platform (Float.F fl)) where
  open fl use {F}

  -- Whether the target is asked and answers in full.
  abbrev pub is_answered :
      Config → Option TargetRuntimeState → Option String → ℤ → TargetConfig → Bool
  is_answered config cooldown password now target =
      is_none (paused_until cooldown now)
      && is_ok (
          observe fl P config.observation.max_response_bytes target
            (target.policy >>= (λ policy. lookup policy config.policies)) password
            config.observation.stats_lookback_ms now)

  observe-is_usable :
      (limit : ℕ) (target : TargetConfig) (policy : Option PolicyConfig) (password : Option String)
      (lookback : ℕ) (now : ℤ) (report : TargetReport F)
      → observe fl P limit target policy password lookback now ≡ ok report
      → (is_usable report ≡ true) × (report.id ≡ target.id)
  unfolding observe
  observe-is_usable limit target policy password lookback now report h = ground arith

  incomplete_report-status :
      (target : TargetConfig) (error : AdGuardError)
      → (incomplete_report {F = F} target error).status ≢ TargetStatus.complete
  unfolding incomplete_report incomplete target_status
  incomplete_report-status target error = ground arith

  -- The answer to the only request set that the task makes.
  abbrev answer : Config → Option String → ℤ → TargetConfig → Result AdGuardError (TargetReport F)
  answer config password now target =
      observe fl P config.observation.max_response_bytes target
        (target.policy >>= (λ policy. lookup policy config.policies)) password
        config.observation.stats_lookback_ms now

  observe_target_paused :
      (config : Config) (cooldown : Option TargetRuntimeState) (password : Option String)
      (now retry : ℤ) (target : TargetConfig)
      → paused_until cooldown now ≡ some retry
      → observe_target fl P config cooldown password now target ≡ cooldown_report target now retry
  unfolding observe_target
  observe_target_paused config cooldown password now retry target e = rw (e, observe_target) refl

  observe_target_asked :
      (config : Config) (cooldown : Option TargetRuntimeState) (password : Option String) (now : ℤ)
      (target : TargetConfig)
      → paused_until cooldown now ≡ none
      → observe_target fl P config cooldown password now target
        ≡ report_of fl P target (answer config password now target)
  unfolding observe_target
  observe_target_asked config cooldown password now target e = rw (e, observe_target) refl

module _ (fl : Float) (P : Platform (Float.F fl)) (sha256 : String → List ℕ)
    (canonical_ip : String → Option String) (policy : Option PolicyConfig)
    (profile : ConditionProfile) where
  open fl use {F}

  abbrev Begins : TargetConfig → ℤ → TargetReport F → Bool → Type 0
  Begins target now report answered =
      first_signature (evaluate_target fl sha256 canonical_ip target policy profile report now)
      ≡ some (
        "target:" <> (target.id <> ":api"),
        "api",
        (if answered then EvaluationOutcome.clear else EvaluationOutcome.active),
      )

  report_of-Begins :
      (target : TargetConfig) (now : ℤ) (r : Result AdGuardError (TargetReport F))
      → ((report : TargetReport F) → r ≡ ok report → is_usable report ≡ true)
      → Begins target now (report_of fl P target r) (is_ok r)
  unfolding report_of incomplete_report incomplete
  report_of-Begins target now (ok report) usable =
      answered-api fl sha256 canonical_ip target policy profile report now (usable report refl)
  report_of-Begins target now (err error) usable = first_of _ _ (
      failed-api fl sha256 canonical_ip target policy profile (incomplete_report target error) now
        (incomplete_report-status fl P target error) refl)

  -- The evaluation of a target begins with its `api` condition, and that is clear exactly if the
  -- target was not paused and answered in full; a paused or failed target has it active.
  pub observe_target-api :
      (config : Config) (cooldown : Option TargetRuntimeState) (password : Option String) (now : ℤ)
      (target : TargetConfig)
      → first_signature (
          evaluate_target fl sha256 canonical_ip target policy profile
            (observe_target fl P config cooldown password now target)
            now)
        ≡ some (
          "target:" <> (target.id <> ":api"),
          "api",
          (if is_answered fl P config cooldown password now target
              then EvaluationOutcome.clear
              else EvaluationOutcome.active),
        )
  unfolding cooldown_report incomplete
  observe_target-api config cooldown password now target =
      elim (Option-cases (paused_until cooldown now)) [
        | inr (retry, e) ↦
            rw (e, observe_target_paused fl P config cooldown password now retry target e)
              (first_of _ _ (
                failed-api fl sha256 canonical_ip target policy profile
                  (cooldown_report target now retry) now (ground arith) refl))
        | inl e ↦
            rw (e, observe_target_asked fl P config cooldown password now target e)
              (report_of-Begins target now (answer fl P config password now target)
                (λ report got. (observe-is_usable fl P _ target _ password _ now report got).0))
      ]
