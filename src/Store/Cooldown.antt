-- ===== src/Store/Cooldown.antt =====
-- `update_runtime_states` and `target_runtime_state`: how long a target's authentication is paused.
use adguard_sentinel.Base.{
  ℕ, ◌-◌, ◌^◌, String, Option, none, some, not, List, [], ◌∷◌, leb, if◌then◌else◌, ◌==◌, find_by,
  filter_by, lookup,
}
use adguard_sentinel.Base.Int.{ℤ, pos, i64_max, saturating_add_i64}
use adguard_sentinel.Base.Result.{Result, ok, err, ◌>>=◌}
use adguard_sentinel.Config.Types.{Config, TargetConfig, ConditionProfile}
use adguard_sentinel.Model.Observation.{TargetReport, TargetStatus}
use adguard_sentinel.Model.Run.{TargetRuntimeState}
use adguard_sentinel.Store.Tables.{StoreError, invalid_data}

unfoldable pub upsert_runtime :
    TargetRuntimeState → List TargetRuntimeState → List TargetRuntimeState
upsert_runtime r [] = r ∷ []
upsert_runtime r (s ∷ ss) =
    let behind = s ∷ upsert_runtime r ss in if s.target_id == r.target_id then r ∷ ss else behind

-- `ok_or_else(|| StoreError::InvalidData(..))`.
abbrev pub found_or {ℓ} : {A : Type ℓ} → String → Option A → Result StoreError A
found_or text none = err (invalid_data text)
found_or text (some a) = ok a

-- `i64::try_from(seconds).unwrap_or(i64::MAX)`.
abbrev pub i64_of_u64 : ℕ → ℤ
i64_of_u64 n = if leb n (2 ^ 63 - 1) then pos n else i64_max

-- The row that pauses a target.
unfoldable pub pause : Config → ℤ → String → Result StoreError TargetRuntimeState
unfolding lookup
pause config now target_id = do
  target ←
      found_or "target missing from config"
        (find_by (λ t. TargetConfig.id t == target_id) config.targets)
  profile ←
      found_or "condition profile missing"
        (lookup (TargetConfig.condition_profile target) config.condition_profiles)
  ok (record {
    target_id = target_id;
    auth_failed_at = some now;
    auth_retry_after = some (
        saturating_add_i64 now
          (i64_of_u64 (ConditionProfile.authentication_retry_seconds profile)));
  })

module _ {F : Type 0} where
  unfoldable pub update_runtime_state :
      Config
      → ℤ
      → TargetReport F
      → List TargetRuntimeState
      → Result StoreError (List TargetRuntimeState)
  unfolding pause upsert_runtime
  update_runtime_state config now report table = elim (TargetReport.status report) [
    | TargetStatus.authentication_rejected ↦ (do
      row ← pause config now (TargetReport.id report)
      ok (upsert_runtime row table))
    | TargetStatus.complete ↦ ok (filter_by (λ s. not (s.target_id == report.id)) table)
    | _ ↦ ok table
  ]

  unfoldable pub update_runtime_states :
      Config
      → ℤ
      → List (TargetReport F)
      → List TargetRuntimeState
      → Result StoreError (List TargetRuntimeState)
  unfolding update_runtime_state
  update_runtime_states config now [] table = ok table
  update_runtime_states config now (report ∷ reports) table = do
    table' ← update_runtime_state config now report table
    update_runtime_states config now reports table'

unfoldable pub target_runtime_state : List TargetRuntimeState → String → Option TargetRuntimeState
target_runtime_state table target_id = find_by (λ s. s.target_id == target_id) table
