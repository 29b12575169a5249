-- ===== src/Go/Fmt.antt =====
-- Package fmt: `Sprintf` with one unsigned argument, for formats whose only verb is `%d`.
use osha.Base.{ℕ, [], ◌∷◌, ◌++◌, ◌&&◌, Text, bytes, nat_beq, if◌then◌else◌}
use osha.Go.Strconv.{format_uint}

-- Behind the argument's verb: a further `%d` has no argument.
unfoldable missing_arguments : Text → Text
missing_arguments [] = []
missing_arguments (c ∷ []) = c ∷ []
missing_arguments (c ∷ d ∷ s) =
    let after = missing_arguments s in
    let next = missing_arguments (d ∷ s) in
    if nat_beq c b'%' && nat_beq d b'd' then bytes "%!d(MISSING)" ++ after else c ∷ next

-- An argument without a verb is reported at the end.
unfoldable pub sprintf : Text → ℕ → Text
unfolding missing_arguments
sprintf [] n = bytes "%!(EXTRA uint=" ++ format_uint n ++ bytes ")"
sprintf (c ∷ []) n = c ∷ bytes "%!(EXTRA uint=" ++ format_uint n ++ bytes ")"
sprintf (c ∷ d ∷ s) n =
    let after = missing_arguments s in
    let next = sprintf (d ∷ s) n in
    if nat_beq c b'%' && nat_beq d b'd' then format_uint n ++ after else c ∷ next
