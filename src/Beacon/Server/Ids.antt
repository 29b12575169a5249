-- ===== src/Beacon/Server/Ids.antt =====
-- `getValidatorIDs` of beacon/server/get-validators.go.
use osha.Base.{List, [], ◌∷◌, ◌++◌, Text}
use osha.Go.Strings.{split, trim_space}

-- `if trimmed == "" { continue }`, or the append.
abbrev pub keep_trimmed : Text → List Text → List Text
keep_trimmed [] rest = rest
keep_trimmed (c ∷ t) rest = (c ∷ t) ∷ rest

-- The inner loop, over the elements of one id.
unfoldable pub trim_elements : List Text → List Text
trim_elements [] = []
trim_elements (element ∷ elements) = keep_trimmed (trim_space element) (trim_elements elements)

unfoldable pub get_validator_ids : List Text → List Text
unfolding trim_elements
get_validator_ids [] = []
get_validator_ids (id ∷ ids) = trim_elements (split b',' id) ++ get_validator_ids ids
