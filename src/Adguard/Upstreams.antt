-- ===== src/Adguard/Upstreams.antt =====
-- `normalize_upstreams`: the averages of the upstreams, joined with their response counts.
use adguard_sentinel.Base.{
  ℕ, String, Option, none, some, Bool, true, false, not, ◌||◌, List, [], ◌∷◌, ◌++◌, ltb, leb,
  if◌then◌else◌, str_leb, is_some, contains, length, map, filter_by, insert, lookup, sort_with,
}
use adguard_sentinel.Base.Chars.{is_empty_text}
use adguard_sentinel.Base.Float.{Float}
use adguard_sentinel.Base.Result.{Result, ok, err, ◌>>=◌}
use adguard_sentinel.Model.Observation.{UpstreamObservation}
use adguard_sentinel.Adguard.Types.{AdGuardError, invalid_stats}

-- `UPSTREAM_LIST_LIMIT`.
abbrev pub upstream_list_limit : ℕ
upstream_list_limit = 100

-- The entry of a map that must have one.
unfoldable pub single {ℓ} :
    {A : Type ℓ} → String → List (String × A) → Result AdGuardError (String × A)
unfolding invalid_stats
single detail (entry ∷ []) = ok entry
single detail _ = invalid_stats detail

-- The first loop: the counts as a `BTreeMap`.
unfoldable pub collect_counts :
    List (String × ℕ) → List (List (String × ℕ)) → Result AdGuardError (List (String × ℕ))
unfolding invalid_stats single lookup insert
collect_counts counts [] = ok counts
collect_counts counts (entry ∷ entries) =
    elim (single "each upstream response entry must contain exactly one upstream" entry) [
      | err e ↦ err e
      | ok (identity, count) ↦
          (let rest = collect_counts (insert identity count counts) entries in
            if is_empty_text identity || is_some (lookup identity counts)
            then invalid_stats "upstream responses contain invalid or duplicate data"
            else rest)
    ]

abbrev pub by_identity : {F : Type 0} → UpstreamObservation F → UpstreamObservation F → Bool
by_identity a b = str_leb a.identity b.identity

-- The counts that no average was there for: a summed duration of zero.
abbrev pub unseen : List String → List (String × ℕ) → List (String × ℕ)
unseen seen = filter_by (λ c. not (contains seen c.0))

-- The count of an average, where the lists are complete.
unfoldable pub responses_of : Bool → String → List (String × ℕ) → Result AdGuardError (Option ℕ)
unfolding lookup invalid_stats
responses_of true identity counts = ok none
responses_of false identity counts = elim (lookup identity counts) [
  | none ↦ invalid_stats "upstream latency has no positive response count"
  | some count ↦
      if ltb 0 count
      then ok (some count)
      else invalid_stats "upstream latency has no positive response count"
]

module _ (fl : Float) where
  open fl use {F, is_finite, lt, literal}

  -- The second loop: the observations and the identities that it has seen.
  unfoldable pub collect_averages :
      Bool
      → List (String × ℕ)
      → List String
      → List (List (String × F))
      → Result AdGuardError (List (UpstreamObservation F) × List String)
  unfolding invalid_stats single responses_of
  collect_averages truncated counts seen [] = ok ([], seen)
  collect_averages truncated counts seen (entry ∷ entries) =
      elim (single "each upstream latency entry must contain exactly one upstream" entry) [
        | err e ↦ err e
        | ok (identity, average) ↦
            (let rest = collect_averages truncated counts (identity ∷ seen) entries in
              if is_empty_text identity
                || contains seen identity
                || not (is_finite average)
                || lt average (literal 0 0)
              then invalid_stats "upstream latency contains invalid or duplicate data"
              else (do
                responses ← responses_of truncated identity counts
                collected ← rest
                ok (
                  record { identity = identity; average_seconds = average; responses = responses }
                      ∷ collected.0,
                  collected.1,
                )))
      ]

  abbrev pub silent : String × ℕ → UpstreamObservation F
  silent c = record { identity = c.0; average_seconds = literal 0 0; responses = some c.1 }

  unfoldable pub normalize_upstreams :
      List (List (String × F))
      → List (List (String × ℕ))
      → Result AdGuardError (List (UpstreamObservation F))
  unfolding collect_counts collect_averages
  normalize_upstreams averages responses =
      let truncated = leb upstream_list_limit (length responses) in
      do
        counts ← collect_counts [] responses
        collected ← collect_averages truncated counts [] averages
        ok (
            sort_with by_identity
              (collected.0 ++ (if truncated then [] else map silent (unseen collected.1 counts))))
