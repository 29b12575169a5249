-- ===== src/Go/Slices.antt =====
-- Package slices: `Sort` on strings, whose result is fixed by the order of the bytes.
use osha.Base.{Bool, true, false, ◌&&◌, ◌||◌, List, [], ◌∷◌, Text, ltb, nat_beq, if◌then◌else◌}

-- `s <= t` for strings.
unfoldable pub text_leb : Text → Text → Bool
text_leb [] t = true
text_leb (a ∷ s) [] = false
text_leb (a ∷ s) (b ∷ t) = ltb a b || (nat_beq a b && text_leb s t)

unfoldable pub insert_sorted : Text → List Text → List Text
unfolding text_leb
insert_sorted x [] = x ∷ []
insert_sorted x (y ∷ ys) = if text_leb x y then x ∷ y ∷ ys else y ∷ insert_sorted x ys

unfoldable pub sort : List Text → List Text
unfolding insert_sorted
sort [] = []
sort (x ∷ xs) = insert_sorted x (sort xs)
