-- ===== src/Examples/Outboxes.antt =====
-- Messages of a run with two alerts and a resolution (crates/sentinel-store/src/store.rs).
use adguard_sentinel.Base.{String, [], ◌∷◌, false}
use adguard_sentinel.Base.Chars.{decimal}
use adguard_sentinel.Model.Condition.{ConditionTransition, TransitionKind}
use adguard_sentinel.Outbox.Batch.{build_outbox}
use adguard_sentinel.Outbox.Batching.{Covers}
use adguard_sentinel.Outbox.Bounds.{build_outbox-Covers}

abbrev alert : String → String → ConditionTransition
alert id summary = record { condition_id = id; kind = TransitionKind.alert; summary = summary }

abbrev api_down : ConditionTransition
api_down = alert "target:one:api" "one AdGuard API is unavailable"

abbrev drift : ConditionTransition
drift = alert "target:two:upstream-mode" "two upstream mode differs from declared policy"

abbrev recovered : ConditionTransition
recovered = record {
  condition_id = "target:three:api";
  kind = TransitionKind.resolution;
  summary = "three AdGuard API is available";
}

build_outbox-Covers_example :
    Covers
      (build_outbox decimal "run" false (api_down ∷ recovered ∷ drift ∷ []))
      (api_down ∷ drift ∷ recovered ∷ [])
build_outbox-Covers_example =
    build_outbox-Covers decimal "run" false (api_down ∷ recovered ∷ drift ∷ [])
