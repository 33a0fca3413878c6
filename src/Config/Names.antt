-- ===== src/Config/Names.antt =====
-- The texts that the configuration and the observations are compared by.
use Prim.Native.Char.{code}
use adguard_sentinel.Base.{
  ℕ, String, Option, none, some, Bool, true, not, ◌&&◌, ◌||◌, leb, eqb, len,
}
use adguard_sentinel.Base.Chars.{trim, trim_end_by, to_ascii_lowercase, is_empty_text}

-- A byte of a slug. A character past ASCII has only bytes past ASCII, which are none of these.
abbrev pub is_slug_char : ℕ → Bool
is_slug_char c = (leb b'a' c && leb c b'z') || (leb b'0' c && leb c b'9') || eqb c b'-'

abbrev pub all_chars : (ℕ → Bool) → String → Bool
all_chars p String.[] = true
all_chars p (String.◌∷◌ c s) = p (code c) && all_chars p s

unfoldable pub valid_id : String → Bool
valid_id value = not (is_empty_text value) && leb (len value) 64 && all_chars is_slug_char value

unfoldable pub normalize_dns_name : String → String
normalize_dns_name value = to_ascii_lowercase (trim_end_by (λ c. eqb c b'.') (trim value))

-- `str::parse::<IpAddr>` followed by `to_string` is the parameter `canonical_ip`.
unfoldable pub normalize_rewrite_answer : (String → Option String) → String → String
unfolding normalize_dns_name
normalize_rewrite_answer canonical_ip value =
    let trimmed = trim value in
    elim (canonical_ip trimmed) [ some address ↦ address | none ↦ normalize_dns_name trimmed ]
