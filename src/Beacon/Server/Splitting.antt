-- ===== src/Beacon/Server/Splitting.antt =====
-- The ids that a request of beacon/server/get-validators.go names.
use osha.Base.{◌≡◌, ◌≢◌, ◌∙◌, ap, refl, List, [], ◌∷◌, ◌++◌, Text, All, All-append}
use mathlib.Core.List.{append_assoc}
use osha.Go.Strings.{split, split-append, trim_space}
use osha.Beacon.Server.Ids.{keep_trimmed, trim_elements, get_validator_ids}

keep_trimmed-append :
    (t : Text) (xs ys : List Text) → keep_trimmed t (xs ++ ys) ≡ keep_trimmed t xs ++ ys
keep_trimmed-append [] xs ys = refl
keep_trimmed-append (c ∷ t) xs ys = refl

trim_elements-append :
    (xs ys : List Text) → trim_elements (xs ++ ys) ≡ trim_elements xs ++ trim_elements ys
unfolding trim_elements
trim_elements-append [] ys = refl
trim_elements-append (x ∷ xs) ys =
    ap (keep_trimmed (trim_space x)) (trim_elements-append xs ys)
    ∙ keep_trimmed-append (trim_space x) (trim_elements xs) (trim_elements ys)

-- A comma in an id makes it two: the request names the same validators, in the same order, as the
-- one that passes what is in front of the comma and what is behind it as two ids.
pub get_validator_ids-comma :
    (a b : Text) (ids : List Text)
    → get_validator_ids ((a ++ b',' ∷ b) ∷ ids) ≡ get_validator_ids (a ∷ b ∷ ids)
unfolding get_validator_ids
get_validator_ids-comma a b ids =
    ap (λ parts. trim_elements parts ++ get_validator_ids ids) (split-append b',' a b)
    ∙ ap (λ l. l ++ get_validator_ids ids) (trim_elements-append (split b',' a) (split b',' b))
    ∙ append_assoc (trim_elements (split b',' a)) (trim_elements (split b',' b))
        (get_validator_ids ids)

keep_trimmed-ne-nil :
    (t : Text) (xs : List Text) → All (λ x. x ≢ []) xs → All (λ x. x ≢ []) (keep_trimmed t xs)
keep_trimmed-ne-nil [] xs a = a
keep_trimmed-ne-nil (c ∷ t) xs a = (λ e. cc, a)

trim_elements-ne-nil : (xs : List Text) → All (λ x. x ≢ []) (trim_elements xs)
unfolding trim_elements
trim_elements-ne-nil [] = tt
trim_elements-ne-nil (x ∷ xs) = keep_trimmed-ne-nil (trim_space x) _ (trim_elements-ne-nil xs)

-- No id that the server looks up is empty.
pub get_validator_ids-ne-nil : (ids : List Text) → All (λ x. x ≢ []) (get_validator_ids ids)
unfolding get_validator_ids
get_validator_ids-ne-nil [] = tt
get_validator_ids-ne-nil (id ∷ ids) =
    All-append (λ x. x ≢ []) (trim_elements (split b',' id)) (get_validator_ids ids)
      (trim_elements-ne-nil (split b',' id)) (get_validator_ids-ne-nil ids)
