-- ===== src/Go/Ints/Printed.antt =====
-- `ParseInt` in base 0 on a number that `FormatUint` printed: it has no prefix and no underscore.
use native.Mathlib.Nat.{pow-suc}
use osha.Base.{
  ℕ, zero, suc, ◌+◌, ◌-◌, ◌*◌, ◌/◌, ◌%◌, ◌^◌, ◌>>=◌, subst, ◌≤◌, ◌<◌, ◌≡◌, refl, inl, inr, false,
  [], ◌∷◌, Text, ok, fail, All, arith, ltb, if◌then◌else◌, Bool-cases,
}
use osha.Go.Ints.{parse_in_base, has_underscore, digits_of, parse_uint_0, parse_int_0, positive}
use osha.Go.Strconv.{
  range, parse_digits, format_digits, format_uint, IsDigit, format_uint-IsDigit, parsed,
}

in_base_10 :
    (max n : ℕ) (s : Text) → All IsDigit s → parse_in_base 10 max n s ≡ parse_digits max n s
unfolding parse_in_base parse_digits
in_base_10 max n [] a = refl
in_base_10 max n (c ∷ s) a = ground (arith, in_base_10 max (n * 10 + (c - 48)) s a.1, a.0)

no_underscore : (s : Text) → All IsDigit s → has_underscore s ≡ false
unfolding has_underscore
no_underscore [] a = refl
no_underscore (c ∷ s) a = ground (arith, no_underscore s a.1, a.0)

-- A positive number is printed without a leading zero.
leading :
    (f n : ℕ) (s : Text)
    → 0 < n
    → n < 10 ^ f
    → (c : ℕ) × (t : Text) × (format_digits f n s ≡ c ∷ t) × (48 < c) × (c ≤ 57)
unfolding format_digits
leading zero n s pos lt = absurd (omega arith)
leading (suc f) n s pos lt = elim (Bool-cases (ltb n 10)) [
  | inl e ↦ (48 + n, s, rw e, omega arith, ground arith)
  | inr e ↦
      let (c, t, e', a, b) =
        leading f (n / 10) ((48 + n % 10) ∷ s) (ground arith) (omega (arith, pow-suc 10 f)) in
      (c, t, rw e e', a, b)
]

-- Without a leading zero the base is 10.
decimal : (max c : ℕ) (t : Text) → 48 < c → digits_of max (c ∷ t) ≡ parse_in_base 10 max 0 (c ∷ t)
unfolding digits_of
decimal max c [] a = ground arith
decimal max c (d ∷ []) a = ground arith
decimal max c (d ∷ e ∷ t) a = ground arith

unprefixed :
    (c : ℕ) (t : Text)
    → 48 < c
    → c ≤ 57
    → parse_int_0 16 (c ∷ t) ≡ (parse_uint_0 16 (c ∷ t) >>= positive 32768)
unfolding parse_int_0
unprefixed c t a b = ground arith

read_back :
    (n c : ℕ) (t : Text)
    → n < 65536
    → format_uint n ≡ c ∷ t
    → 48 < c
    → parse_uint_0 16 (c ∷ t) ≡ ok n
unfolding parse_uint_0
read_back n c t lt e a =
    let digits : All IsDigit (c ∷ t) = subst (All IsDigit) e (format_uint-IsDigit n) in
    rw (
      decimal 65535 c t a,
      in_base_10 65535 0 (c ∷ t) digits,
      ← e,
      parsed 65535 n (omega arith) (omega arith),
      no_underscore (c ∷ t) digits,
    )

printed_positive :
    (n : ℕ)
    → 0 < n
    → n < 65536
    → parse_int_0 16 (format_uint n) ≡ (if ltb n 32768 then ok n else fail range)
unfolding positive
printed_positive n pos lt =
    let (c, t, e, a, b) = leading 20 n [] pos (omega arith) in
    let e' : format_uint n ≡ c ∷ t = unfold format_uint in e in
    rw (e', unprefixed c t a b, read_back n c t lt e' a) (ground arith)

at_zero : parse_int_0 16 (format_uint 0) ≡ ok 0
unfolding parse_int_0 format_uint format_digits
at_zero = refl

-- A 16-bit number that is printed and read by `ParseInt` with 16 bits comes back if it is under 2^15,
-- and is out of range otherwise.
pub parse_int_0-format_uint :
    (n : ℕ)
    → n < 65536
    → parse_int_0 16 (format_uint n) ≡ (if ltb n 32768 then ok n else fail range)
parse_int_0-format_uint zero lt = at_zero
parse_int_0-format_uint (suc n) lt = printed_positive (suc n) (omega arith) lt
