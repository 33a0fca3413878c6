-- ===== src/Base/Chars.antt =====
-- `str` functions of Rust's standard library that walk a text: trimming, ASCII case, decimals.
use Prim.Native.Nat.{ℕ, zero, suc, ◌/◌, ◌%◌}
use Prim.Native.Char.{Char, code}
use Prim.Native.String.{String, ◌++◌ as ◌<>◌}
use mathlib.Core.Bool.{Bool, true, false, ◌&&◌, ◌||◌}
use adguard_sentinel.Base.Tests.{ltb, leb, eqb, if◌then◌else◌}
use adguard_sentinel.Base.Int.{ℤ, pos, negsuc}

-- Unicode's `White_Space`, as `char::is_whitespace`.
abbrev pub is_whitespace : ℕ → Bool
is_whitespace c =
    (leb 9 c && leb c 13)
    || eqb c 32
    || eqb c 0x85
    || eqb c 0xa0
    || eqb c 0x1680
    || (leb 0x2000 c && leb c 0x200a)
    || eqb c 0x2028
    || eqb c 0x2029
    || eqb c 0x202f
    || eqb c 0x205f
    || eqb c 0x3000

abbrev pub is_empty_text : String → Bool
is_empty_text String.[] = true
is_empty_text (String.◌∷◌ c s) = false

-- `trim_start_matches` and `trim_end_matches` on a test of the character.
unfoldable pub trim_start_by : (ℕ → Bool) → String → String
trim_start_by p String.[] = ""
trim_start_by p (String.◌∷◌ c s) =
    let rest = trim_start_by p s in if p (code c) then rest else String.◌∷◌ c s

unfoldable pub trim_end_by : (ℕ → Bool) → String → String
trim_end_by p String.[] = ""
trim_end_by p (String.◌∷◌ c s) =
    let rest = trim_end_by p s in if is_empty_text rest && p (code c) then "" else String.◌∷◌ c rest

unfoldable pub trim : String → String
unfolding trim_start_by trim_end_by
trim s = trim_end_by is_whitespace (trim_start_by is_whitespace s)

-- The character of the second text at the first text's position of `c`.
abbrev swap_char : Char → String → String → Char
swap_char c String.[] to = c
swap_char c (String.◌∷◌ f from) String.[] = c
swap_char c (String.◌∷◌ f from) (String.◌∷◌ t to) =
    if eqb (code c) (code f) then t else swap_char c from to

unfoldable pub to_ascii_lowercase : String → String
to_ascii_lowercase String.[] = ""
to_ascii_lowercase (String.◌∷◌ c s) =
    String.◌∷◌ (swap_char c "ABCDEFGHIJKLMNOPQRSTUVWXYZ" "abcdefghijklmnopqrstuvwxyz")
      (to_ascii_lowercase s)

abbrev digit : ℕ → String
digit zero = "0"
digit (suc zero) = "1"
digit (suc (suc zero)) = "2"
digit (suc (suc (suc zero))) = "3"
digit (suc (suc (suc (suc zero)))) = "4"
digit (suc (suc (suc (suc (suc zero))))) = "5"
digit (suc (suc (suc (suc (suc (suc zero)))))) = "6"
digit (suc (suc (suc (suc (suc (suc (suc zero))))))) = "7"
digit (suc (suc (suc (suc (suc (suc (suc (suc zero)))))))) = "8"
digit _ = "9"

-- `{}` of an unsigned integer: a number has no more digits than its value and one.
decimal_fuel : ℕ → ℕ → String
decimal_fuel zero n = ""
decimal_fuel (suc f) n =
    let high = decimal_fuel f (n / 10) in if ltb n 10 then digit n else high <> digit (n % 10)

unfoldable pub decimal : ℕ → String
unfolding decimal_fuel
decimal n = decimal_fuel (suc n) n

unfoldable pub decimal_ℤ : ℤ → String
unfolding decimal
decimal_ℤ (pos n) = decimal n
decimal_ℤ (negsuc n) = "-" <> decimal (suc n)
