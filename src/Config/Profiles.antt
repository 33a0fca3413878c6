-- ===== src/Config/Profiles.antt =====
-- `validate_profiles` and `validate_range` (crates/sentinel-core/src/config.rs). Each returns the
-- errors that the source pushes.
use adguard_sentinel.Base.{
  ℕ, ◌≤◌, ◌<◌, ◌≡◌, String, Bool, true, false, not, ◌&&◌, List, [], ◌∷◌, ◌++◌, arith, ◌↔◌, leb, eqb,
  All, is_empty, len, ◌||◌,
}
use adguard_sentinel.Base.Chars.{decimal, is_empty_text}
use adguard_sentinel.Config.Types.{ConditionProfile}
use adguard_sentinel.Config.Names.{valid_id, all_chars}
use adguard_sentinel.Config.Platform.{Platform, format, error_if, append-nil_iff, concat_map}

abbrev out_of_range : ℕ → ℕ → ℕ → Bool
out_of_range minimum maximum value = not (leb minimum value && leb value maximum)

unfoldable pub validate_range : String → ℕ → ℕ → ℕ → List String
validate_range label value minimum maximum =
    error_if (out_of_range minimum maximum value)
      (format (label ∷ " must be between " ∷ decimal minimum ∷ " and " ∷ decimal maximum ∷ []))

-- The counts of runs, by name.
abbrev pub counts_of : ConditionProfile → List (String × ℕ)
counts_of p =
    ("authentication_rejected_sustain_runs", p.authentication_rejected_sustain_runs)
    ∷ ("api_unavailable_sustain_runs", p.api_unavailable_sustain_runs)
    ∷ ("invalid_response_sustain_runs", p.invalid_response_sustain_runs)
    ∷ ("unsupported_version_sustain_runs", p.unsupported_version_sustain_runs)
    ∷ ("protection_disabled_sustain_runs", p.protection_disabled_sustain_runs)
    ∷ ("processing_latency_sustain_runs", p.processing_latency_sustain_runs)
    ∷ ("upstream_latency_sustain_runs", p.upstream_latency_sustain_runs)
    ∷ ("policy_drift_sustain_runs", p.policy_drift_sustain_runs)
    ∷ ("behavioral_anomaly_sustain_runs", p.behavioral_anomaly_sustain_runs)
    ∷ ("recovery_runs", p.recovery_runs)
    ∷ []

abbrev pub durations_of : ConditionProfile → List (String × ℕ)
durations_of p =
    ("authentication_retry_seconds", p.authentication_retry_seconds)
    ∷ ("processing_latency_ms", p.processing_latency_ms)
    ∷ ("upstream_latency_ms", p.upstream_latency_ms)
    ∷ []

-- A stable slug: 1 to 64 lower-case letters, digits and hyphens.
abbrev pub IsSlug : String → Type 0
IsSlug value =
    (is_empty_text value ≡ false)
    × (len value ≤ 64)
    × (all_chars (λ c. (leb b'a' c && leb c b'z') || (leb b'0' c && leb c b'9') || eqb c b'-') value
        ≡ true)

abbrev pub IsCount : ℕ → Type 0
IsCount n = (1 ≤ n) × (n ≤ 1000)

-- A profile that the latch can work with: every count of runs is positive and bounded, and every
-- duration is positive.
pub record IsSound (p : String × ConditionProfile) : Type 0 where
  pub slug : IsSlug p.0
  pub authentication_rejected : IsCount p.1.authentication_rejected_sustain_runs
  pub api_unavailable : IsCount p.1.api_unavailable_sustain_runs
  pub invalid_response : IsCount p.1.invalid_response_sustain_runs
  pub unsupported_version : IsCount p.1.unsupported_version_sustain_runs
  pub protection_disabled : IsCount p.1.protection_disabled_sustain_runs
  pub processing_latency : IsCount p.1.processing_latency_sustain_runs
  pub upstream_latency : IsCount p.1.upstream_latency_sustain_runs
  pub policy_drift : IsCount p.1.policy_drift_sustain_runs
  pub behavioral_anomaly : IsCount p.1.behavioral_anomaly_sustain_runs
  pub recovery_runs : IsCount p.1.recovery_runs
  pub authentication_retry_seconds : 0 < p.1.authentication_retry_seconds
  pub processing_latency_ms : 0 < p.1.processing_latency_ms
  pub upstream_latency_ms : 0 < p.1.upstream_latency_ms

-- What the loops over the counts and the durations find out.
abbrev IsChecked : String × ConditionProfile → Type 0
IsChecked p =
    (valid_id p.0 ≡ true)
    × All (λ c. IsCount c.1) (counts_of p.1)
    × All (λ d. 0 < d.1) (durations_of p.1)

pub valid_id-IsSlug : (id : String) → (valid_id id ≡ true) ↔ IsSlug id
unfolding valid_id
valid_id-IsSlug id = ground arith

IsChecked-IsSound : (p : String × ConditionProfile) → IsChecked p ↔ IsSound p
IsChecked-IsSound p = (
  (λ h.
      let (id, cs, ds) = h in
      record {
        slug = (valid_id-IsSlug p.0).0 id;
        authentication_rejected = cs.0;
        api_unavailable = cs.1.0;
        invalid_response = cs.1.1.0;
        unsupported_version = cs.1.1.1.0;
        protection_disabled = cs.1.1.1.1.0;
        processing_latency = cs.1.1.1.1.1.0;
        upstream_latency = cs.1.1.1.1.1.1.0;
        policy_drift = cs.1.1.1.1.1.1.1.0;
        behavioral_anomaly = cs.1.1.1.1.1.1.1.1.0;
        recovery_runs = cs.1.1.1.1.1.1.1.1.1.0;
        authentication_retry_seconds = ds.0;
        processing_latency_ms = ds.1.0;
        upstream_latency_ms = ds.1.1.0;
      }),
  λ s. (
    (valid_id-IsSlug p.0).1 (IsSound.slug s),
    (
      IsSound.authentication_rejected s,
      (
        IsSound.api_unavailable s,
        (
          IsSound.invalid_response s,
          (
            IsSound.unsupported_version s,
            (
              IsSound.protection_disabled s,
              (
                IsSound.processing_latency s,
                (
                  IsSound.upstream_latency s,
                  (
                    IsSound.policy_drift s,
                    (IsSound.behavioral_anomaly s, (IsSound.recovery_runs s, tt)),
                  ),
                ),
              ),
            ),
          ),
        ),
      ),
    ),
    (
      IsSound.authentication_retry_seconds s,
      (IsSound.processing_latency_ms s, (IsSound.upstream_latency_ms s, tt)),
    ),
  ),
)

module _ (platform : Platform) where
  open platform use {debug}

  abbrev count_errors : String → String × ℕ → List String
  count_errors id (label, count) = error_if (out_of_range 1 1000 count) (
      format (
        "condition profile "
        ∷ debug id
        ∷ " "
        ∷ label
        ∷ " must be between 1 and 1000, got "
        ∷ decimal count
        ∷ []))

  abbrev duration_errors : String → String × ℕ → List String
  duration_errors id (label, duration) =
      error_if (eqb duration 0)
        (format ("condition profile " ∷ debug id ∷ " " ∷ label ∷ " must be positive" ∷ []))

  unfoldable pub validate_profile : String × ConditionProfile → List String
  validate_profile (id, profile) =
      error_if (not (valid_id id))
        (format ("condition profile id " ∷ debug id ∷ " is not a stable slug" ∷ []))
      ++ (concat_map (count_errors id) (counts_of profile)
          ++ concat_map (duration_errors id) (durations_of profile))

  unfoldable pub validate_profiles : List (String × ConditionProfile) → List String
  unfolding validate_profile
  validate_profiles profiles =
      error_if (is_empty profiles) "condition_profiles must not be empty"
      ++ concat_map validate_profile profiles

  count_errors-nil :
      (id : String) (cs : List (String × ℕ))
      → (concat_map (count_errors id) cs ≡ []) ↔ All (λ c. (1 ≤ c.1) × (c.1 ≤ 1000)) cs
  count_errors-nil id [] = ground arith
  count_errors-nil id ((l, n) ∷ cs) = ground (
    arith,
    count_errors-nil id cs,
    append-nil_iff (count_errors id (l, n)) (concat_map (count_errors id) cs),
  )

  duration_errors-nil :
      (id : String) (ds : List (String × ℕ))
      → (concat_map (duration_errors id) ds ≡ []) ↔ All (λ d. 0 < d.1) ds
  duration_errors-nil id [] = ground arith
  duration_errors-nil id ((l, n) ∷ ds) = ground (
    arith,
    duration_errors-nil id ds,
    append-nil_iff (duration_errors id (l, n)) (concat_map (duration_errors id) ds),
  )

  validate_profile-nil : (p : String × ConditionProfile) → (validate_profile p ≡ []) ↔ IsSound p
  unfolding validate_profile
  validate_profile-nil (id, profile) =
      let counts = concat_map (count_errors id) (counts_of profile) in
      let durations = concat_map (duration_errors id) (durations_of profile) in
      let bad_id =
        error_if (not (valid_id id))
          (format ("condition profile id " ∷ debug id ∷ " is not a stable slug" ∷ [])) in
      let checked : (validate_profile (id, profile) ≡ []) ↔ IsChecked (id, profile) = ground (
        arith,
        append-nil_iff bad_id (counts ++ durations),
        append-nil_iff counts durations,
        count_errors-nil id (counts_of profile),
        duration_errors-nil id (durations_of profile),
      ) in
      let (there, back) = IsChecked-IsSound (id, profile) in
      ((λ e. there (checked.0 e)), λ s. checked.1 (back s))

  concat-profiles :
      (ps : List (String × ConditionProfile))
      → (concat_map validate_profile ps ≡ []) ↔ All IsSound ps
  concat-profiles [] = ground arith
  concat-profiles (p ∷ ps) = ground (
    arith,
    append-nil_iff (validate_profile p) (concat_map validate_profile ps),
    validate_profile-nil p,
    concat-profiles ps,
  )

  -- The profiles are accepted exactly if there is one, and every one has a stable slug for its id
  -- (1 to 64 lower-case letters, digits and hyphens),
  -- counts of runs between 1 and 1000, and positive durations.
  pub validate_profiles-nil :
      (ps : List (String × ConditionProfile))
      → (validate_profiles ps ≡ []) ↔ ((is_empty ps ≡ false) × All IsSound ps)
  unfolding validate_profiles
  validate_profiles-nil ps = ground (
    arith,
    concat-profiles ps,
    append-nil_iff (error_if (is_empty ps) "condition_profiles must not be empty")
        (concat_map validate_profile ps),
  )
