-- ===== src/Go/Examples.antt =====
-- Runs of the functions of Go's standard library that Go/ models.
use osha.Base.{◌≡◌, refl, true, [], ◌∷◌, ◌++◌, bytes, text_beq, ok, fail}
use osha.Go.Strconv.{
  syntax, range, parse_digits, parse_uint, format_digits, format_uint, parse_bool,
}
use osha.Go.Ints.{parse_int_0}
use osha.Go.Strings.{split, cut_prefix, skip_one, trim_front, trim_space}
use osha.Go.Fmt.{sprintf}

largest_32_bits : parse_uint 32 (bytes "4294967295") ≡ ok 4294967295
unfolding parse_uint parse_digits
largest_32_bits = refl

too_large : parse_uint 32 (bytes "4294967296") ≡ fail range
unfolding parse_uint parse_digits
too_large = refl

no_number : parse_uint 64 (bytes "+1") ≡ fail syntax
unfolding parse_uint parse_digits
no_number = refl

printed : format_uint 18446744073709551615 ≡ bytes "18446744073709551615"
unfolding format_uint format_digits
printed = refl

a_true : parse_bool (bytes "True") ≡ ok true
unfolding parse_bool text_beq
a_true = refl

parts : split b',' (bytes "a,,b") ≡ bytes "a" ∷ [] ∷ bytes "b" ∷ []
unfolding split
parts = refl

-- A tab in front, a space and a no-break space behind.
trimmed : trim_space (9 ∷ bytes "a b" ++ 32 ∷ 0xc2 ∷ 0xa0 ∷ []) ≡ bytes "a b"
unfolding trim_space trim_front skip_one cut_prefix
trimmed = refl

derivation_path : sprintf (bytes "m/44'/60'/0'/0/%d") 12 ≡ bytes "m/44'/60'/0'/0/12"
unfolding sprintf format_uint format_digits
derivation_path = refl

decimal : parse_int_0 16 (bytes "8080") ≡ ok 8080
unfolding parse_int_0
decimal = refl

hexadecimal : parse_int_0 16 (bytes "0x1_0") ≡ ok 16
unfolding parse_int_0
hexadecimal = refl

too_large_signed : parse_int_0 16 (bytes "32768") ≡ fail range
unfolding parse_int_0
too_large_signed = refl

double_underscore : parse_int_0 16 (bytes "1__0") ≡ fail syntax
unfolding parse_int_0
double_underscore = refl

octal : parse_int_0 16 (bytes "010") ≡ ok 8
unfolding parse_int_0
octal = refl

zero_alone : parse_int_0 16 (bytes "0") ≡ ok 0
unfolding parse_int_0
zero_alone = refl
