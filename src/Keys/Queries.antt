-- ===== src/Keys/Queries.antt =====
-- Calls of the two methods of the generator of keys/keygen.go, one after the other.
use mathlib.Core.Option
use osha.Base.{ℕ, List, [], ◌∷◌, Option, none, some, nat_eq, Outcome}
use osha.Keys.{KeyPackages, KeyError, KeyGenerator, get_eth_private_key, get_bls_private_key}

pub data Query : Type 0 where
  eth bls : ℕ → Query

pub data Answer (EcdsaKey BlsKey : Type 0) : Type 0 where
  eth_answer : Outcome KeyError EcdsaKey → Answer EcdsaKey BlsKey
  bls_answer : Outcome KeyError BlsKey → Answer EcdsaKey BlsKey

module _ {ExtendedKey EcdsaKey BlsKey : Type 0} (keys : KeyPackages ExtendedKey EcdsaKey BlsKey)
    (fuel : ℕ) where
  -- One call on the generator; `none` is a derivation that needs more fuel.
  unfoldable pub ask :
      Query
      → KeyGenerator ExtendedKey EcdsaKey BlsKey
      → Option (Answer EcdsaKey BlsKey × KeyGenerator ExtendedKey EcdsaKey BlsKey)
  ask (eth i) g = Option.map (λ r. (eth_answer r.0, r.1)) (get_eth_private_key keys fuel i g)
  ask (bls i) g = let (r, g') = get_bls_private_key keys i g in some (bls_answer r, g')

  -- The answer of a generator to one query alone.
  abbrev pub alone :
      KeyGenerator ExtendedKey EcdsaKey BlsKey → Query → Option (Answer EcdsaKey BlsKey)
  alone g q = Option.map (λ r. r.0) (ask q g)

  -- The answers to some queries, one after the other.
  unfoldable pub ask_all :
      List Query → KeyGenerator ExtendedKey EcdsaKey BlsKey → List (Option (Answer EcdsaKey BlsKey))
  ask_all [] g = []
  ask_all (q ∷ qs) g = elim (ask q g) [
    | none ↦ none ∷ ask_all qs g
    | some (a, g') ↦ some a ∷ ask_all qs g'
  ]
