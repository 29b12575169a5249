-- ===== src/Go/Ints.antt =====
-- Package strconv: `ParseInt` in base 0, where a prefix chooses the base and underscores may separate
-- the digits. An int64 is kept as the number that its bits spell.
pub mod Printed
use osha.Base.{
  ℕ, suc, ◌+◌, ◌-◌, ◌*◌, ◌%◌, ◌^◌, Bool, true, false, not, ◌&&◌, ◌||◌, [], ◌∷◌, Text, Outcome, ok,
  fail, panic, ◌>>=◌, ltb, leb, nat_beq, if◌then◌else◌, u64_mod,
}
use osha.Go.Strconv.{NumError, syntax, range, is_digit}

-- `c | ('x' - 'X')`
abbrev lower : ℕ → ℕ
lower c = if leb 65 c && leb c 90 then c + 32 else c

-- The value of a digit, 36 for a byte that is none.
abbrev digit_value : ℕ → ℕ
digit_value c =
    if is_digit c
    then c - 48
    else if leb b'a' (lower c) && leb (lower c) b'z'
    then lower c - 87
    else 36

-- The loop of `ParseUint`: the number is at most `max`, and underscores are passed over.
unfoldable pub parse_in_base : ℕ → ℕ → ℕ → Text → Outcome NumError ℕ
parse_in_base base max n [] = ok n
parse_in_base base max n (c ∷ s) =
    let n' = n * base + digit_value c in
    let skipped = parse_in_base base max n s in
    let rest = parse_in_base base max n' s in
    if nat_beq c b'_'
    then skipped
    else if ltb (digit_value c) base
    then (if ltb max n' then fail range else rest)
    else fail syntax

-- What stands before a place of a number, for `underscoreOK`.
pub data Before : Type 0 where
  start digit underscore other : Before

underscores_from : Bool → Before → Text → Bool
underscores_from hex digit [] = true
underscores_from hex start [] = true
underscores_from hex other [] = true
underscores_from hex underscore [] = false
underscores_from hex before (c ∷ s) =
    let behind_digit = underscores_from hex digit s in
    let behind_underscore = underscores_from hex underscore s in
    let behind_other = underscores_from hex other s in
    if is_digit c || (hex && (leb b'a' (lower c) && leb (lower c) b'f'))
    then behind_digit
    else if nat_beq c b'_'
    then elim before [ digit ↦ behind_underscore | _ ↦ false ]
    else elim before [ underscore ↦ false | _ ↦ behind_other ]

abbrev is_base_prefix : ℕ → Bool
is_base_prefix c = nat_beq (lower c) b'b' || nat_beq (lower c) b'o' || nat_beq (lower c) b'x'

-- `underscoreOK`, behind the sign.
underscore_ok : Text → Bool
unfolding underscores_from
underscore_ok (z ∷ c ∷ s) =
    if nat_beq z b'0' && is_base_prefix c
    then underscores_from (nat_beq (lower c) b'x') digit s
    else underscores_from false start (z ∷ c ∷ s)
underscore_ok s = underscores_from false start s

has_underscore : Text → Bool
has_underscore [] = false
has_underscore (c ∷ s) = nat_beq c b'_' || has_underscore s

-- The prefix with its base; a prefix without digits is none.
digits_of : ℕ → Text → Outcome NumError ℕ
unfolding parse_in_base
digits_of max (z ∷ p ∷ d ∷ s) =
    if not (nat_beq z b'0')
    then parse_in_base 10 max 0 (z ∷ p ∷ d ∷ s)
    else if nat_beq (lower p) b'b'
    then parse_in_base 2 max 0 (d ∷ s)
    else if nat_beq (lower p) b'o'
    then parse_in_base 8 max 0 (d ∷ s)
    else if nat_beq (lower p) b'x'
    then parse_in_base 16 max 0 (d ∷ s)
    else parse_in_base 8 max 0 (p ∷ d ∷ s)
digits_of max (z ∷ s) =
    if nat_beq z b'0' then parse_in_base 8 max 0 s else parse_in_base 10 max 0 (z ∷ s)
digits_of max [] = fail syntax

-- `ParseUint(s, 0, bits)`
unfoldable pub parse_uint_0 : ℕ → Text → Outcome NumError ℕ
unfolding digits_of underscore_ok has_underscore
parse_uint_0 bits s = do
  n ← digits_of (2 ^ bits - 1) s
  if has_underscore s && not (underscore_ok s) then fail syntax else ok n

positive : ℕ → ℕ → Outcome NumError ℕ
positive cutoff n = if leb cutoff n then fail range else ok n

negative : ℕ → ℕ → Outcome NumError ℕ
negative cutoff n = if ltb cutoff n then fail range else ok ((u64_mod - n) % u64_mod)

-- `ParseInt(s, 0, bits)`
unfoldable pub parse_int_0 : ℕ → Text → Outcome NumError ℕ
unfolding parse_uint_0 positive negative
parse_int_0 bits [] = fail syntax
parse_int_0 bits (c ∷ s) =
    if nat_beq c b'+'
    then parse_uint_0 bits s >>= positive (2 ^ (bits - 1))
    else if nat_beq c b'-'
    then parse_uint_0 bits s >>= negative (2 ^ (bits - 1))
    else parse_uint_0 bits (c ∷ s) >>= positive (2 ^ (bits - 1))
