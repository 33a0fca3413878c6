-- ===== src/Analysis/Rewrite.antt =====
-- `evaluate_rewrites` (crates/sentinel-core/src/analysis.rs). `Sha256::digest` and the canonical
-- text of an address are parameters.
use adguard_sentinel.Base.{
  ℕ, String, ◌<>◌, Option, none, some, Bool, true, false, not, ◌&&◌, List, [], ◌∷◌, ◌++◌, map,
  if◌then◌else◌, ◌==◌,
}
use mathlib.Core.Bool.{beq}
use adguard_sentinel.Config.Types.{
  TargetConfig, ConditionProfile, PolicyConfig, RequiredRewrite, RequiredRewrites,
}
use adguard_sentinel.Config.Names.{normalize_dns_name, normalize_rewrite_answer}
use adguard_sentinel.Model.Condition.{ConditionEvaluation, Severity}
use adguard_sentinel.Model.Observation.{TargetReport, RewriteObservation}
use adguard_sentinel.Analysis.Evaluation.{
  Json, Fields, optional, Verdict, verdict_active, verdict_clear, from_flag, evaluation,
  boolean_evaluation, short_hash,
}

-- `switch == Some(wanted)`.
unfoldable pub is_switched : Option Bool → Bool → Bool
is_switched none wanted = false
is_switched (some switch) wanted = beq switch wanted

-- `current.is_none_or(|rewrite| rewrite.enabled != required.enabled)`.
unfoldable pub is_missing_or_disabled : RequiredRewrite → Option RewriteObservation → Bool
is_missing_or_disabled required none = true
is_missing_or_disabled required (some rewrite) =
    not (beq (RewriteObservation.enabled rewrite) (RequiredRewrite.enabled required))

unfoldable pub rewrite_verdict :
    TargetConfig → RequiredRewrite → Option RewriteObservation → Option Bool → Verdict
unfolding verdict_active verdict_clear is_switched is_missing_or_disabled
rewrite_verdict target required current switch =
    if is_missing_or_disabled required current
    then verdict_active "missing_or_disabled"
        (target.name <> " is missing or has disabled a required rewrite")
    else if required.enabled && not (is_switched switch true)
    then verdict_active "globally_disabled"
        (target.name <> " has DNS rewrites switched off, so a required rewrite does not resolve")
    else verdict_clear "matches_policy" (target.name <> " required rewrite matches declared policy")

abbrev rewrite_settings : TargetConfig → Bool → Verdict
rewrite_settings target drift =
    from_flag drift ("drift", target.name <> " rewrite settings differ from declared policy")
      ("matches_policy", target.name <> " rewrite settings match declared policy")

-- A key of `observed`: the domain and the answer, both normalized.
abbrev pub Key : Type 0
Key = String × String

-- A later rewrite of a key replaces an earlier one.
unfoldable pub find_rewrite :
    (RewriteObservation → Key) → Key → List RewriteObservation → Option RewriteObservation
find_rewrite key_of key [] = none
find_rewrite key_of key (r ∷ rs) =
    let later = find_rewrite key_of key rs in
    elim later [
      | some l ↦ some l
      | none ↦ if ((key_of r).0 == key.0) && ((key_of r).1 == key.1) then some r else none
    ]

unfoldable pub evaluate_rewrite_settings :
    {F : Type 0}
    → TargetConfig
    → ConditionProfile
    → TargetReport F
    → Option Bool
    → List (ConditionEvaluation (Json F))
unfolding boolean_evaluation from_flag is_switched
evaluate_rewrite_settings target profile report none = []
evaluate_rewrite_settings target profile report (some enabled) =
    boolean_evaluation ("target:" <> (TargetConfig.id target <> ":rewrites-enabled")) target
      "rewrite_settings" Severity.warning
      (rewrite_settings target (not (is_switched (TargetReport.rewrites_enabled report) enabled)))
      (Json.boolean enabled) (optional Json.boolean (TargetReport.rewrites_enabled report))
      "GET /control/rewrite/settings enabled" profile.policy_drift_sustain_runs
      profile.recovery_runs
    ∷ []

module _ (canonical_ip : String → Option String) where
  unfoldable pub observed_key : RewriteObservation → Key
  unfolding normalize_dns_name normalize_rewrite_answer
  observed_key rewrite =
      (normalize_dns_name rewrite.domain, normalize_rewrite_answer canonical_ip rewrite.answer)

  unfoldable pub required_key : RequiredRewrite → Key
  unfolding normalize_dns_name normalize_rewrite_answer
  required_key required =
      (normalize_dns_name required.domain, normalize_rewrite_answer canonical_ip required.answer)

module _ (sha256 : String → List ℕ) (canonical_ip : String → Option String) where
  unfoldable pub evaluate_rewrite :
      {F : Type 0}
      → TargetConfig
      → ConditionProfile
      → TargetReport F
      → RequiredRewrite
      → ConditionEvaluation (Json F)
  unfolding rewrite_verdict evaluation short_hash find_rewrite observed_key required_key
  evaluate_rewrite target profile report required =
      let key = required_key canonical_ip required in
      let current = find_rewrite (observed_key canonical_ip) key (TargetReport.rewrites report) in
      evaluation
        ("target:"
          <> (TargetConfig.id target
              <> (":rewrite:" <> short_hash sha256 (key.0 <> ("=" <> key.1)))))
        (some (TargetConfig.id target)) "required_rewrite" Severity.warning
        (rewrite_verdict target required current (TargetReport.rewrites_enabled report))
        (Json.object (
          Fields.field "domain" (Json.text key.0) (
            Fields.field "answer" (Json.text key.1) (
              Fields.field "enabled" (Json.boolean (RequiredRewrite.enabled required))
                Fields.end))))
        (optional
          (λ r. Json.object (
            Fields.field "domain" (Json.text (RewriteObservation.domain r)) (
              Fields.field "answer" (Json.text (RewriteObservation.answer r))
                (Fields.field "enabled" (Json.boolean (RewriteObservation.enabled r)) Fields.end))))
          current)
        "GET /control/rewrite/list" true profile.policy_drift_sustain_runs profile.recovery_runs

  unfoldable pub evaluate_rewrites :
      {F : Type 0}
      → TargetConfig
      → PolicyConfig
      → ConditionProfile
      → TargetReport F
      → List (ConditionEvaluation (Json F))
  unfolding evaluate_rewrite evaluate_rewrite_settings
  evaluate_rewrites target policy profile report =
      evaluate_rewrite_settings target profile report
        (RequiredRewrites.enabled (PolicyConfig.rewrites policy))
      ++ map (evaluate_rewrite target profile report)
          (RequiredRewrites.required (PolicyConfig.rewrites policy))
