-- ===== src/Hex.antt =====
-- crates/sentinel-core/src/hex.rs: lower-case hexadecimal, two characters to a byte.
use adguard_sentinel.Base.{ℕ, zero, suc, ◌/◌, ◌%◌, String, ◌<>◌, List, [], ◌∷◌}

abbrev hex_digit : ℕ → String
hex_digit zero = "0"
hex_digit (suc zero) = "1"
hex_digit (suc (suc zero)) = "2"
hex_digit (suc (suc (suc zero))) = "3"
hex_digit (suc (suc (suc (suc zero)))) = "4"
hex_digit (suc (suc (suc (suc (suc zero))))) = "5"
hex_digit (suc (suc (suc (suc (suc (suc zero)))))) = "6"
hex_digit (suc (suc (suc (suc (suc (suc (suc zero))))))) = "7"
hex_digit (suc (suc (suc (suc (suc (suc (suc (suc zero)))))))) = "8"
hex_digit (suc (suc (suc (suc (suc (suc (suc (suc (suc zero))))))))) = "9"
hex_digit (suc (suc (suc (suc (suc (suc (suc (suc (suc (suc zero)))))))))) = "a"
hex_digit (suc (suc (suc (suc (suc (suc (suc (suc (suc (suc (suc zero))))))))))) = "b"
hex_digit (suc (suc (suc (suc (suc (suc (suc (suc (suc (suc (suc (suc zero)))))))))))) = "c"
hex_digit (suc (suc (suc (suc (suc (suc (suc (suc (suc (suc (suc (suc (suc zero))))))))))))) = "d"
hex_digit (suc (suc (suc (suc (suc (suc (suc (suc (suc (suc (suc (suc (suc (suc zero)))))))))))))) =
    "e"
hex_digit _ = "f"

-- `{byte:02x}` of a byte.
abbrev hex_byte : ℕ → String
hex_byte b = hex_digit (b / 16) <> hex_digit (b % 16)

unfoldable pub encode : List ℕ → String
encode [] = ""
encode (b ∷ bs) = hex_byte b <> encode bs
