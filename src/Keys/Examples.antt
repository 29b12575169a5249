-- ===== src/Keys/Examples.antt =====
-- The theorems about keys/ for a toy derivation.
use osha.Base.{
  ℕ, ◌+◌, ◌≡◌, refl, true, List, [], ◌∷◌, map, some, bytes, text_beq, arith, nat_beq, if◌then◌else◌,
  length,
}
use osha.Go.Fmt.{sprintf}
use osha.Go.Strconv.{format_uint, format_digits}
use osha.Keys.{
  KeyPackages, KeyGenerator, child, invalid_child, try_index, follow, get_derived_key,
  new_key_generator,
}
use osha.Keys.Derivation.{settled, get_derived_key_lem}
use osha.Keys.Queries.{Query, eth, bls, alone, ask_all}
use osha.Keys.Caching.{ask_all_lem}

-- A key is a number; the child 0 of every key is invalid.
abbrev toy : KeyPackages ℕ ℕ ℕ
toy = record {
  is_mnemonic_valid = λ _. true;
  initialize_bls = some tt;
  new_seed = λ m. m;
  new_master = λ s. some (length s);
  parse_derivation_path = λ t. some ((if text_beq t (bytes "m/0") then 0 else length t) ∷ []);
  derive = λ k n. if nat_beq n 0 then invalid_child else child (k + n);
  ec_priv_key = λ k. some k;
  private_key_from_seed_and_path = λ s t. some (length s + length t);
}

-- The index 0 is passed over for 1.
get_derived_key_lem_example :
    get_derived_key toy 2 7 (bytes "m/%d") 0 ≡ settled toy 1 (try_index toy 7 (bytes "m/%d") 1)
unfolding try_index follow sprintf format_uint format_digits text_beq
get_derived_key_lem_example =
    get_derived_key_lem toy 1 2 7 (bytes "m/%d") 0
      (λ j lt. let first : j ≡ 0 = omega arith in rw first) (λ e. cc) (omega arith) (omega arith)

abbrev queries : List Query
queries = eth 0 ∷ bls 3 ∷ eth 1 ∷ eth 0 ∷ []

abbrev generator : KeyGenerator ℕ ℕ ℕ
generator = record {
  mnemonic = bytes "junk";
  eth_derivation_path = bytes "m/%d";
  bls_derivation_path = bytes "m/%d/0";
  seed = bytes "junk";
  master_key = 4;
  eth_keys = [];
  bls_keys = [];
}

ask_all_lem_example : ask_all toy 5 queries generator ≡ map (alone toy 5 generator) queries
unfolding new_key_generator
ask_all_lem_example =
    ask_all_lem toy 5 (bytes "junk") (bytes "m/%d") (bytes "m/%d/0") generator queries refl
