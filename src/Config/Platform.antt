-- ===== src/Config/Platform.antt =====
-- What the validation uses of libraries and of the system: `{:?}` of a text, `Url::parse`,
-- `VersionReq::parse`, `Path::is_absolute`, `fs::metadata` and `IpAddr`. All of it is a parameter.
use adguard_sentinel.Base.{
  ℕ, ◌≡◌, String, ◌<>◌, Option, none, some, Bool, true, false, List, [], ◌∷◌, ◌++◌, arith, ◌↔◌,
  ◌==◌, if◌then◌else◌, All,
}
use adguard_sentinel.Base.Result.{Result}
use adguard_sentinel.Base.Chars.{to_ascii_lowercase}

-- `url::Host`; of an address only `is_loopback` is read.
pub data Host : Type 0 where
  ipv4 ipv6 : Bool → Host
  domain : String → Host

-- The parts of a `url::Url` that are read.
pub record Url : Type 0 where
  pub scheme : String
  pub username : String
  pub password : Option String
  pub host : Option Host
  pub path : String
  pub query : Option String
  pub fragment : Option String

pub record FileMetadata : Type 0 where
  pub is_file : Bool
  pub size : ℕ

pub record Platform : Type 0 where
  pub debug : String → String
  pub parse_url : String → Option Url
  pub is_requirement : String → Bool
  pub is_absolute : String → Bool
  pub metadata : String → Result String FileMetadata
  pub canonical_ip : String → Option String

unfoldable pub is_loopback : Url → Bool
is_loopback url = elim url.host [
  | none ↦ false
  | some (Host.ipv4 loopback) ↦ loopback
  | some (Host.ipv6 loopback) ↦ loopback
  | some (Host.domain name) ↦ to_ascii_lowercase name == "localhost"
]

-- The pieces of a message.
abbrev pub format : List String → String
format [] = ""
format (s ∷ ss) = s <> format ss

-- `if wrong { errors.push(message) }`.
abbrev pub error_if : Bool → String → List String
error_if wrong message = if wrong then message ∷ [] else []

pub error_if-nil :
    (wrong : Bool) (message : String) → (error_if wrong message ≡ []) ↔ (wrong ≡ false)
error_if-nil true message = ground arith
error_if-nil false message = ground arith

pub append-nil_iff {ℓ} : {A : Type ℓ} (xs ys : List A) → (xs ++ ys ≡ []) ↔ ((xs ≡ []) × (ys ≡ []))
append-nil_iff [] ys = ground arith
append-nil_iff (x ∷ xs) ys = ground arith

-- The errors that several checks push, one after the other.
unfoldable pub joined : List (List String) → List String
joined [] = []
joined (xs ∷ xss) = xs ++ joined xss

pub joined-nil : (xss : List (List String)) → joined xss ≡ [] → All (λ xs. xs ≡ []) xss
unfolding joined
joined-nil [] h = tt
joined-nil (xs ∷ xss) h =
    let parts = (append-nil_iff xs (joined xss)).0 h in (parts.0, joined-nil xss parts.1)

abbrev pub concat_map {ℓ} : {A : Type ℓ} → (A → List String) → List A → List String
concat_map f [] = []
concat_map f (x ∷ xs) = f x ++ concat_map f xs
