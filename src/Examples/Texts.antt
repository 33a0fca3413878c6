-- ===== src/Examples/Texts.antt =====
-- Texts and digests that the code prints.
use adguard_sentinel.Base.{◌≡◌, refl, [], ◌∷◌}
use adguard_sentinel.Base.Chars.{decimal, to_ascii_lowercase, trim}
use adguard_sentinel.Hex.{encode}

decimal_test : decimal 1024 ≡ "1024"
unfolding decimal
decimal_test = refl

lower_test : to_ascii_lowercase (trim "  Ab.C ") ≡ "ab.c"
unfolding to_ascii_lowercase trim
lower_test = refl

encode_test : encode (0x00 ∷ 0x0f ∷ 0xa0 ∷ 0xff ∷ []) ≡ "000fa0ff"
unfolding encode
encode_test = refl
