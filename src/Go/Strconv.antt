-- ===== src/Go/Strconv.antt =====
-- Package strconv: `ParseUint` and `FormatUint` in base 10, and `ParseBool`.
use native.Mathlib.Nat.{pow-suc}
use osha.Base.{
  u64_mod, Bool-cases, inl, inr, ◌≢◌, ℕ, zero, suc, ◌+◌, ◌-◌, ◌*◌, ◌/◌, ◌%◌, ◌^◌, ◌≤◌, ◌<◌, ◌≡◌,
  refl, Bool, true, false, ◌&&◌, ◌||◌, [], ◌∷◌, ◌∙◌, Text, bytes, text_beq, Outcome, ok, fail,
  length, All, arith, ltb, leb, if◌then◌else◌,
}

pub data NumError : Type 0 where
  syntax range : NumError

-- The bytes that are digits.
abbrev pub is_digit : ℕ → Bool
is_digit c = leb 48 c && leb c 57

-- The loop of `ParseUint`, up to the largest value `max`.
unfoldable pub parse_digits : ℕ → ℕ → Text → Outcome NumError ℕ
parse_digits max n [] = ok n
parse_digits max n (c ∷ s) =
    let n' = n * 10 + (c - 48) in
    let rest = parse_digits max n' s in
    if is_digit c then (if ltb max n' then fail range else rest) else fail syntax

unfoldable pub parse_uint : ℕ → Text → Outcome NumError ℕ
parse_uint bits [] = fail syntax
parse_uint bits (c ∷ s) = parse_digits (2 ^ bits - 1) 0 (c ∷ s)

-- Twenty digits are enough for a uint64.
unfoldable pub format_digits : ℕ → ℕ → Text → Text
format_digits zero n s = s
format_digits (suc f) n s =
    let rest = format_digits f (n / 10) ((48 + n % 10) ∷ s) in
    if ltb n 10 then (48 + n) ∷ s else rest

unfoldable pub format_uint : ℕ → Text
format_uint n = format_digits 20 n []

unfoldable pub parse_bool : Text → Outcome NumError Bool
parse_bool s =
    if text_beq s (bytes "1")
      || text_beq s (bytes "t")
      || text_beq s (bytes "T")
      || text_beq s (bytes "TRUE")
      || text_beq s (bytes "true")
      || text_beq s (bytes "True")
    then ok true
    else if text_beq s (bytes "0")
        || text_beq s (bytes "f")
        || text_beq s (bytes "F")
        || text_beq s (bytes "FALSE")
        || text_beq s (bytes "false")
        || text_beq s (bytes "False")
    then ok false
    else fail syntax

shorter : (f n : ℕ) → n < 10 ^ suc f → n / 10 < 10 ^ f
shorter f n lt = omega (arith, pow-suc 10 f)

parse_digits-format_digits :
    (max f n : ℕ) (s : Text)
    → n < 10 ^ f
    → n ≤ max
    → parse_digits max 0 (format_digits f n s) ≡ parse_digits max n s
unfolding parse_digits format_digits
parse_digits-format_digits max zero n s lt le = let e : n ≡ 0 = omega arith in rw e
parse_digits-format_digits max (suc f) n s lt le = ground (
  arith,
  parse_digits-format_digits max f (n / 10) ((48 + n % 10) ∷ s) (shorter f n lt) (omega arith),
)

abbrev pub IsDigit : ℕ → Type 0
IsDigit c = (48 ≤ c) × (c ≤ 57)

format_digits-IsDigit : (f n : ℕ) (s : Text) → All IsDigit s → All IsDigit (format_digits f n s)
unfolding format_digits
format_digits-IsDigit zero n s a = a
format_digits-IsDigit (suc f) n s a = elim (Bool-cases (ltb n 10)) [
  | inl e ↦ rw e (ground arith, a)
  | inr e ↦
      rw e (format_digits-IsDigit f (n / 10) ((48 + n % 10) ∷ s) ((omega arith, omega arith), a))
]

length-format_digits : (f n : ℕ) (s : Text) → length (format_digits f n s) ≤ f + length s
unfolding format_digits
length-format_digits zero n s = omega arith
length-format_digits (suc f) n s =
    ground (arith, length-format_digits f (n / 10) ((48 + n % 10) ∷ s))

format_digits-ne-nil : (f n c : ℕ) (s : Text) → format_digits f n (c ∷ s) ≢ []
unfolding format_digits
format_digits-ne-nil zero n c s = λ e. cc
format_digits-ne-nil (suc f) n c s =
    ground (arith, format_digits-ne-nil f (n / 10) (48 + n % 10) (c ∷ s))

-- A printed number has between 1 and 20 bytes, all of them digits.
pub format_uint-IsDigit : (n : ℕ) → All IsDigit (format_uint n)
unfolding format_uint
format_uint-IsDigit n = format_digits-IsDigit 20 n [] tt

pub length-format_uint : (n : ℕ) → length (format_uint n) ≤ 20
unfolding format_uint
length-format_uint n = omega (arith, length-format_digits 20 n [])

pub first_digit : (f n : ℕ) → format_digits (suc f) n [] ≢ []
unfolding format_digits
first_digit f n = ground (arith, format_digits-ne-nil f (n / 10) (48 + n % 10) [])

pub format_uint-ne-nil : (n : ℕ) → format_uint n ≢ []
unfolding format_uint
format_uint-ne-nil n = first_digit 19 n

parse_uint_of_ne :
    (bits : ℕ) (s : Text) → s ≢ [] → parse_uint bits s ≡ parse_digits (2 ^ bits - 1) 0 s
unfolding parse_uint
parse_uint_of_ne bits [] n = absurd (n refl)
parse_uint_of_ne bits (c ∷ s) n = refl

pub parsed : (max n : ℕ) → n < u64_mod → n ≤ max → parse_digits max 0 (format_uint n) ≡ ok n
unfolding format_uint
parsed max n small le =
    parse_digits-format_digits max 20 n [] (omega arith) le ∙ unfold parse_digits in refl

-- A number that is printed and read back is the same number, if it fits the bits of both.
pub parse_uint-format_uint :
    (bits n : ℕ) → n < 2 ^ bits → n < u64_mod → parse_uint bits (format_uint n) ≡ ok n
parse_uint-format_uint bits n lt small =
    parse_uint_of_ne bits (format_uint n) (format_uint-ne-nil n)
    ∙ parsed (2 ^ bits - 1) n small (omega arith)
