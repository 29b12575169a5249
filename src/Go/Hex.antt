-- ===== src/Go/Hex.antt =====
-- Numbers in base 16: `EncodeToString` of package encoding/hex, and the verb `%02x` of package fmt.
use osha.Base.{ℕ, zero, suc, ◌+◌, ◌/◌, ◌%◌, [], ◌∷◌, Text, ltb, if◌then◌else◌}

abbrev pub hex_digit : ℕ → ℕ
hex_digit n = if ltb n 10 then 48 + n else 87 + n

-- Two digits for each byte.
unfoldable pub encode_to_string : Text → Text
encode_to_string [] = []
encode_to_string (b ∷ bs) = hex_digit (b / 16) ∷ hex_digit (b % 16) ∷ encode_to_string bs

-- The digits of a number in front of a text; sixteen are enough for 64 bits.
unfoldable format_hex_digits : ℕ → ℕ → Text → Text
format_hex_digits zero n s = s
format_hex_digits (suc f) n s =
    let rest = format_hex_digits f (n / 16) (hex_digit (n % 16) ∷ s) in
    if ltb n 16 then hex_digit n ∷ s else rest

-- `%02x`: two digits at least.
unfoldable pub format_hex_2 : ℕ → Text
unfolding format_hex_digits
format_hex_2 n = if ltb n 16 then 48 ∷ hex_digit n ∷ [] else format_hex_digits 16 n []
