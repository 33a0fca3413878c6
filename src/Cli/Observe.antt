-- ===== src/Cli/Observe.antt =====
-- The observation of the targets in `check_with_sink` (apps/sentinel-cli/src/main.rs).
use adguard_sentinel.Base.{
  String, ◌<>◌, Option, none, some, Bool, List, map, if◌then◌else◌, str_leb, lookup, sort_with,
}
use adguard_sentinel.Base.Chars.{decimal_ℤ}
use adguard_sentinel.Base.Int.{ℤ, ltb_ℤ, saturating_sub_i64}
use adguard_sentinel.Base.Float.{Float}
use adguard_sentinel.Base.Opt.{◌>>=◌}
use adguard_sentinel.Base.Result.{Result, ok, err}
use adguard_sentinel.Config.Types.{Config, TargetConfig}
use adguard_sentinel.Model.Observation.{TargetReport, TargetStatus, incomplete}
use adguard_sentinel.Model.Run.{TargetRuntimeState}
use adguard_sentinel.Adguard.Types.{AdGuardError, target_status, kind, describe}
use adguard_sentinel.Adguard.Observe.{Platform, observe}

-- `incomplete_report`.
unfoldable pub incomplete_report : {F : Type 0} → TargetConfig → AdGuardError → TargetReport F
unfolding incomplete target_status kind describe
incomplete_report target error =
    incomplete target.id target.name (target_status error) (kind error) (describe error)

-- The time until which the target's authentication is paused, if that is ahead.
unfoldable pub paused_until : Option TargetRuntimeState → ℤ → Option ℤ
paused_until cooldown now = do
  state ← cooldown
  retry_after ← TargetRuntimeState.auth_retry_after state
  if ltb_ℤ now retry_after then some retry_after else none

unfoldable pub cooldown_report : {F : Type 0} → TargetConfig → ℤ → ℤ → TargetReport F
unfolding incomplete
cooldown_report target now retry_after =
    incomplete target.id target.name TargetStatus.authentication_cooldown "authentication_cooldown"
      ("authentication retry is paused for "
        <> (decimal_ℤ (saturating_sub_i64 retry_after now) <> " seconds"))

module _ (fl : Float) (P : Platform (Float.F fl)) where
  open fl use {F}

  -- The `match` on what the client answers.
  unfoldable pub report_of : TargetConfig → Result AdGuardError (TargetReport F) → TargetReport F
  unfolding incomplete_report
  report_of target (ok report) = report
  report_of target (err error) = incomplete_report target error

  -- The task of one target. `cooldown` and `password` are the entries of its id in the two maps.
  unfoldable pub observe_target :
      Config → Option TargetRuntimeState → Option String → ℤ → TargetConfig → TargetReport F
  unfolding paused_until cooldown_report report_of lookup
  observe_target config cooldown password now target = elim (paused_until cooldown now) [
    | some retry_after ↦ cooldown_report target now retry_after
    | none ↦ report_of target (
        observe fl P config.observation.max_response_bytes target
          (target.policy >>= (λ policy. lookup policy config.policies)) password
          config.observation.stats_lookback_ms now)
  ]

  abbrev by_id : TargetReport F → TargetReport F → Bool
  by_id a b = str_leb a.id b.id

  -- All targets, in whatever order their tasks end: the reports are sorted by id, which no two of a
  -- validated configuration share. Each target is given the list order here.
  unfoldable pub observe_targets :
      Config
      → (String → Option TargetRuntimeState)
      → (String → Option String)
      → ℤ
      → List (TargetReport F)
  unfolding observe_target
  observe_targets config cooldowns passwords now = sort_with by_id (
      map
        (λ target.
          observe_target config (cooldowns (TargetConfig.id target))
            (passwords (TargetConfig.id target)) now target)
        config.targets)
