-- ===== src/Cli/Profile.antt =====
-- The profile of the behavioural group exists: `baseline_profile` (apps/sentinel-cli/src/main.rs)
-- on a validated configuration.
use adguard_sentinel.Base.{
  ◌≡◌, String, some, Bool, true, false, List, [], ◌∷◌, arith, All, contains, ◌==◌, find_by, is_some,
  Option-cases, Bool-cases, inl, inr, subst,
}
use mathlib.Core.Option.{some-injective}
use adguard_sentinel.Config.Types.{Config, TargetConfig, BehavioralBaselineConfig}
use adguard_sentinel.Config.Targets.{unknown_profile}
use adguard_sentinel.Config.Accepted.{ids_of}
use adguard_sentinel.Cli.Exit.{baseline_profile}

find-ids_of :
    (id : String) (ts : List TargetConfig)
    → contains (ids_of ts) id ≡ true
    → is_some (find_by (λ t. TargetConfig.id t == id) ts) ≡ true
find-ids_of id [] h = ground arith
find-ids_of id (t ∷ ts) h = ground (arith, find-ids_of id ts)

All-find_by :
    (q p : TargetConfig → Bool) (ts : List TargetConfig) (t : TargetConfig)
    → All (λ u. q u ≡ false) ts
    → find_by p ts ≡ some t
    → q t ≡ false
All-find_by q p [] t h found = ground arith
All-find_by q p (u ∷ us) t h found = elim (Bool-cases (p u)) [
  | inl here ↦ subst (λ v. q v ≡ false) (some-injective u t (rw here at found)) h.0
  | inr there ↦ All-find_by q p us t h.1 (rw there at found)
]

-- If every target refers to a declared profile, and the first member of the group is a target, then
-- the group has a profile: the run does not fail for the want of it.
pub baseline_profile-some :
    (config : Config) (baseline : BehavioralBaselineConfig) (id : String) (rest : List String)
    → baseline.target_ids ≡ id ∷ rest
    → contains (ids_of config.targets) id ≡ true
    → All (λ t. unknown_profile config t ≡ false) config.targets
    → is_some (baseline_profile config baseline) ≡ true
unfolding baseline_profile
baseline_profile-some config baseline id rest members met known =
    elim (Option-cases (find_by (λ t. TargetConfig.id t == id) config.targets)) [
      | inl gone ↦ ground (arith, gone, find-ids_of id config.targets met)
      | inr (t, found) ↦
          rw (members, found)
            (ground (
              arith,
              All-find_by (unknown_profile config) (λ u. TargetConfig.id u == id) config.targets t
                  known found,
            ))
    ]
