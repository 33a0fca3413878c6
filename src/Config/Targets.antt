-- ===== src/Config/Targets.antt =====
-- `validate_targets`, `validate_target_url`, `validate_notifications`, `validate_absolute_path` and
-- `validate_secret_file` (crates/sentinel-core/src/config.rs). A set of what was met is a list.
use adguard_sentinel.Base.{
  String, Option, none, some, Bool, false, not, ◌&&◌, ◌||◌, List, [], ◌∷◌, ◌++◌, ltb, if◌then◌else◌,
  is_none, is_some, contains, ◌==◌, lookup,
}
use adguard_sentinel.Base.Chars.{trim, is_empty_text}
use adguard_sentinel.Base.Result.{Result}
use adguard_sentinel.Config.Types.{
  Config, TargetConfig, TargetAuth, NotificationConfig, NotificationProvider, PushoverConfig,
}
use adguard_sentinel.Config.Names.{valid_id}
use adguard_sentinel.Config.Platform.{
  Platform, Url, FileMetadata, is_loopback, format, error_if, joined,
}

-- Whether the target's policy, if it names one, is not declared.
abbrev pub unknown_policy : Config → TargetConfig → Bool
unknown_policy config target = elim target.policy [
  | none ↦ false
  | some policy ↦ is_none (lookup policy config.policies)
]

abbrev pub unknown_profile : Config → TargetConfig → Bool
unknown_profile config target = is_none (lookup target.condition_profile config.condition_profiles)

module _ (platform : Platform) where
  open platform use {debug, parse_url, is_absolute, metadata}

  unfoldable pub validate_absolute_path : String → String → List String
  validate_absolute_path label path =
      error_if (not (is_absolute path)) (format (label ∷ " must be an absolute path" ∷ []))

  unfoldable pub validate_secret_file : String → String → List String
  validate_secret_file path label = elim (metadata path) [
    | Result.ok m ↦
        error_if (not (FileMetadata.is_file m && ltb 0 (FileMetadata.size m)))
          (format (label ∷ " must reference a nonempty regular file" ∷ []))
    | Result.err error ↦ format ("cannot inspect " ∷ label ∷ ": " ∷ error ∷ []) ∷ []
  ]

  abbrev scheme_errors : TargetConfig → Url → List String
  scheme_errors target url =
      if url.scheme == "https"
      then []
      else if url.scheme == "http"
      then error_if (not (is_loopback url || target.allow_insecure_local_http)) (
          format (
            "target "
            ∷ debug target.id
            ∷ " uses non-loopback HTTP without allow_insecure_local_http"
            ∷ []))
      else format ("target " ∷ debug target.id ∷ " base_url must use HTTP or HTTPS" ∷ []) ∷ []

  unfoldable pub validate_target_url : TargetConfig → List String
  unfolding is_loopback
  validate_target_url target = elim (parse_url target.base_url) [
    | none ↦ format ("target " ∷ debug target.id ∷ " base_url is invalid" ∷ []) ∷ []
    | some url ↦
        error_if
          (not (is_empty_text (Url.username url))
            || is_some (Url.password url)
            || is_some (Url.query url)
            || is_some (Url.fragment url))
          (format (
            "target "
            ∷ debug target.id
            ∷ " base_url may not contain credentials, query, or fragment"
            ∷ []))
        ++ (error_if (not (Url.path url == "/") && not (is_empty_text (Url.path url)))
              (format ("target " ∷ debug target.id ∷ " base_url path must be /" ∷ []))
            ++ scheme_errors target url)
  ]

  abbrev has_username : Option String → Bool
  has_username none = false
  has_username (some username) = not (is_empty_text (trim username))

  abbrev password_errors : Bool → TargetConfig → Option String → List String
  password_errors check target none =
      format ("target " ∷ debug target.id ∷ " password_file is required when auth is basic" ∷ [])
      ∷ []
  password_errors check target (some path) =
      validate_absolute_path "target.password_file" path
      ++ (if check
          then validate_secret_file path (format ("target " ∷ debug target.id ∷ " password" ∷ []))
          else [])

  unfoldable pub validate_auth : Bool → TargetConfig → List String
  unfolding validate_absolute_path validate_secret_file
  validate_auth check target = elim target.auth [
    | TargetAuth.none ↦ error_if (is_some target.username || is_some target.password_file) (
        format (
          "target "
          ∷ debug target.id
          ∷ " must omit username and password_file when auth is none"
          ∷ []))
    | TargetAuth.basic ↦
        error_if (not (has_username target.username)) (
          format
            ("target " ∷ debug target.id ∷ " username must not be empty when auth is basic" ∷ []))
        ++ password_errors check target target.password_file
  ]

  abbrev policy_name : TargetConfig → String
  policy_name target = elim target.policy [ none ↦ "" | some policy ↦ policy ]

  unfoldable pub validate_references : Config → TargetConfig → List String
  validate_references config target =
      error_if (unknown_policy config target) (
        format (
          "target "
          ∷ debug target.id
          ∷ " references unknown policy "
          ∷ debug (policy_name target)
          ∷ []))
      ++ error_if (unknown_profile config target) (
          format (
            "target "
            ∷ debug target.id
            ∷ " references unknown condition profile "
            ∷ debug target.condition_profile
            ∷ []))

  abbrev is_unnamed : TargetConfig → Bool
  is_unnamed t = is_empty_text (trim t.name)

  -- The body of the loop over the targets, and the errors of those that follow.
  abbrev pub target_errors :
      Config → Bool → List String → List String → TargetConfig → List String → List (List String)
  target_errors config check ids names t rest =
      error_if (not (valid_id t.id) || contains ids t.id)
        (format ("target id " ∷ debug t.id ∷ " is invalid or duplicated" ∷ []))
      ∷ error_if (is_unnamed t || contains names t.name)
          (format ("target name " ∷ debug t.name ∷ " is empty or duplicated" ∷ []))
      ∷ validate_auth check t
      ∷ validate_references config t
      ∷ validate_target_url t
      ∷ rest
      ∷ []

  -- The loop, with the ids and the names that it has inserted.
  unfoldable pub validate_each :
      Config → Bool → List String → List String → List TargetConfig → List String
  unfolding validate_auth validate_references validate_target_url joined
  validate_each config check ids names [] = []
  validate_each config check ids names (t ∷ ts) =
      let ids' = if not (valid_id (TargetConfig.id t)) then ids else TargetConfig.id t ∷ ids in
      let names' = if is_unnamed t then names else TargetConfig.name t ∷ names in
      let rest = validate_each config check ids' names' ts in
      joined (target_errors config check ids names t rest)

  unfoldable pub validate_notifications : NotificationConfig → Bool → List String
  unfolding validate_absolute_path validate_secret_file
  validate_notifications notifications check = elim notifications.provider [
    | NotificationProvider.disabled ↦
        error_if (is_some notifications.pushover)
          "notifications.pushover must be absent when provider is disabled"
    | NotificationProvider.pushover ↦ elim notifications.pushover [
      | none ↦ "notifications.pushover is required when provider is pushover" ∷ []
      | some p ↦
          validate_absolute_path "notifications.pushover.application_token_file"
            (PushoverConfig.application_token_file p)
          ++ (validate_absolute_path "notifications.pushover.user_key_file"
                (PushoverConfig.user_key_file p)
              ++ (if check
                  then validate_secret_file (PushoverConfig.application_token_file p)
                      "Pushover application token"
                    ++ validate_secret_file (PushoverConfig.user_key_file p) "Pushover user key"
                  else []))
    ]
  ]
