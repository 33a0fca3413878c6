-- ===== src/Analysis/Policy.antt =====
-- The declared policy: `evaluate_dns_policy`, `evaluate_filters` and `evaluate_rewrites`. Each
-- returns what the source pushes to `evaluations`.
use adguard_sentinel.Base.{
  String, ◌<>◌, Option, none, some, Bool, true, false, not, ◌&&◌, List, [], ◌∷◌, ◌++◌, ◌==◌, insert,
  set_of,
}
use adguard_sentinel.Config.Types.{TargetConfig, ConditionProfile, PolicyConfig}
use adguard_sentinel.Model.Condition.{ConditionEvaluation, Severity}
use adguard_sentinel.Model.Observation.{TargetReport, DnsObservation, FilterObservation}
use adguard_sentinel.Analysis.Evaluation.{Json, texts, Verdict, from_flag, boolean_evaluation}

abbrev same_texts : List String → List String → Bool
same_texts [] [] = true
same_texts (a ∷ as') (b ∷ bs) = (a == b) && same_texts as' bs
same_texts _ _ = false

abbrev mode_drift : TargetConfig → Bool → Verdict
mode_drift target drift =
    from_flag drift ("drift", target.name <> " upstream mode differs from declared policy")
      ("matches_policy", target.name <> " upstream mode matches declared policy")

abbrev set_drift : TargetConfig → Bool → Verdict
set_drift target drift =
    from_flag drift ("drift", target.name <> " upstream set differs from declared policy")
      ("matches_policy", target.name <> " upstream set matches declared policy")

module _ {F : Type 0} where
  unfoldable pub evaluate_upstream_mode :
      TargetConfig
      → ConditionProfile
      → DnsObservation
      → Option String
      → List (ConditionEvaluation (Json F))
  unfolding boolean_evaluation from_flag
  evaluate_upstream_mode target profile dns none = []
  evaluate_upstream_mode target profile dns (some expected) =
      boolean_evaluation ("target:" <> (target.id <> ":upstream-mode")) target "upstream_mode"
        Severity.warning (mode_drift target (not (dns.upstream_mode == expected)))
        (Json.text expected) (Json.text dns.upstream_mode) "GET /control/dns_info upstream_mode"
        profile.policy_drift_sustain_runs profile.recovery_runs
      ∷ []

  unfoldable pub evaluate_upstream_set :
      TargetConfig
      → ConditionProfile
      → DnsObservation
      → Option (List String)
      → List (ConditionEvaluation (Json F))
  unfolding boolean_evaluation from_flag
  evaluate_upstream_set target profile dns none = []
  evaluate_upstream_set target profile dns (some upstream_dns) =
      let expected = set_of upstream_dns in
      let observed = set_of dns.upstream_dns in
      boolean_evaluation ("target:" <> (target.id <> ":upstream-set")) target "upstream_set"
        Severity.warning (set_drift target (not (same_texts expected observed)))
        (Json.array (texts expected)) (Json.array (texts observed))
        "GET /control/dns_info upstream_dns" profile.policy_drift_sustain_runs profile.recovery_runs
      ∷ []

  unfoldable pub evaluate_dns_policy :
      TargetConfig
      → PolicyConfig
      → ConditionProfile
      → TargetReport F
      → List (ConditionEvaluation (Json F))
  unfolding evaluate_upstream_mode evaluate_upstream_set
  evaluate_dns_policy target policy profile report = elim (TargetReport.dns report) [
    | none ↦ []
    | some dns ↦
        evaluate_upstream_mode target profile dns (PolicyConfig.upstream_mode policy)
        ++ evaluate_upstream_set target profile dns (PolicyConfig.upstream_dns policy)
  ]

abbrev pub collect_filters :
    List (String × FilterObservation) → List FilterObservation → List (String × FilterObservation)
collect_filters m [] = m
collect_filters m (f ∷ fs) = collect_filters (insert (FilterObservation.url f) f m) fs

-- `observed`, a map that keeps the last filter of a URL.
unfoldable pub filters_by_url : List FilterObservation → List (String × FilterObservation)
filters_by_url filters = collect_filters [] filters
