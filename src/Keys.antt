-- ===== src/Keys.antt =====
-- keys/keygen.go and settings.go: the generator of wallet and validator keys, with its two caches.
-- The keys and the packages that derive them (go-bip39, hdkeychain, go-ethereum, go-eth2-util) are
-- parameters; a key is never changed, so that a pointer to it is the key.
pub mod Derivation
pub mod Queries
pub mod Fresh
pub mod Caching
mod Examples
use osha.Base.{
  ℕ, zero, suc, Bool, [], ◌∷◌, List, Option, none, some, Text, bytes, Dict, lookup, insert, nat_eq,
  Outcome, ok, fail, panic, add64, if◌then◌else◌,
}
use osha.Go.Fmt.{sprintf}

abbrev pub default_mnemonic : Text
default_mnemonic = bytes "test test test test test test test test test test test junk"

abbrev pub default_eth_derivation_path : Text
default_eth_derivation_path = bytes "m/44'/60'/0'/0/%d"

abbrev pub default_beacon_derivation_path : Text
default_beacon_derivation_path = bytes "m/12381/3600/%d/0/0"

-- hdkeychain.ExtendedKey.Derive: a child, ErrInvalidChild or another error.
pub data Derive (ExtendedKey : Type 0) : Type 0 where
  child : ExtendedKey → Derive ExtendedKey
  invalid_child failed : Derive ExtendedKey

-- `none` is an error. `ec_priv_key` is ECPrivKey and the conversion ToECDSA.
pub record KeyPackages (ExtendedKey EcdsaKey BlsKey : Type 0) : Type 0 where
  pub is_mnemonic_valid : Text → Bool
  pub initialize_bls : Option (Unit {0})
  pub new_seed : Text → Text
  pub new_master : Text → Option ExtendedKey
  pub parse_derivation_path : Text → Option (List ℕ)
  pub derive : ExtendedKey → ℕ → Derive ExtendedKey
  pub ec_priv_key : ExtendedKey → Option EcdsaKey
  pub private_key_from_seed_and_path : Text → Text → Option BlsKey

pub data KeyError : Type 0 where
  invalid_mnemonic invalid_path no_validator_key : Text → KeyError
  no_bls no_master_key no_private_key : KeyError
  invalid_child_key : ℕ → KeyError

pub record KeyGenerator (ExtendedKey EcdsaKey BlsKey : Type 0) : Type 0 where
  pub mnemonic : Text
  pub eth_derivation_path : Text
  pub bls_derivation_path : Text
  pub seed : Text
  pub master_key : ExtendedKey
  pub eth_keys : Dict ℕ EcdsaKey
  pub bls_keys : Dict ℕ BlsKey

-- Where the loop over a derivation path ends: at a key, at an invalid child, which makes the caller
-- start over, or at another error and its depth.
pub data Walk (ExtendedKey : Type 0) : Type 0 where
  reached : ExtendedKey → Walk ExtendedKey
  start_over : Walk ExtendedKey
  stopped : KeyError → Walk ExtendedKey

module _ {ExtendedKey EcdsaKey BlsKey : Type 0}
    (keys : KeyPackages ExtendedKey EcdsaKey BlsKey) where
  unfoldable pub new_key_generator :
      Text → Text → Text → Outcome KeyError (KeyGenerator ExtendedKey EcdsaKey BlsKey)
  new_key_generator mnemonic eth_path bls_path =
      if keys.is_mnemonic_valid mnemonic
      then elim keys.initialize_bls [
        | none ↦ fail no_bls
        | some _ ↦ elim (keys.new_master (keys.new_seed mnemonic)) [
          | none ↦ fail no_master_key
          | some master_key ↦ ok (record {
            mnemonic = mnemonic;
            eth_derivation_path = eth_path;
            bls_derivation_path = bls_path;
            seed = keys.new_seed mnemonic;
            master_key = master_key;
            eth_keys = [];
            bls_keys = [];
          })
        ]
      ]
      else fail (invalid_mnemonic mnemonic)

  unfoldable pub new_key_generator_with_defaults :
      Outcome KeyError (KeyGenerator ExtendedKey EcdsaKey BlsKey)
  unfolding new_key_generator
  new_key_generator_with_defaults =
      new_key_generator default_mnemonic default_eth_derivation_path default_beacon_derivation_path

  -- The loop of `getDerivedKey`, from the depth `i`.
  unfoldable pub follow : ℕ → ExtendedKey → List ℕ → Walk ExtendedKey
  follow i key [] = reached key
  follow i key (n ∷ path) = elim (keys.derive key n) [
    | child next ↦ follow (suc i) next path
    | invalid_child ↦ start_over
    | failed ↦ stopped (invalid_child_key i)
  ]

  -- One try of `getDerivedKey`, for one index.
  unfoldable pub try_index : ExtendedKey → Text → ℕ → Walk ExtendedKey
  unfolding follow
  try_index master_key derivation_path index =
      let formatted = sprintf derivation_path index in
      elim (keys.parse_derivation_path formatted) [
        | none ↦ stopped (invalid_path formatted)
        | some path ↦ follow 0 master_key path
      ]

  -- The recursion goes on for as long as the children are invalid, and the index wraps around, so
  -- that nothing bounds it: `none` is a recursion that needs more than `fuel` tries.
  unfoldable pub get_derived_key :
      ℕ → ExtendedKey → Text → ℕ → Option (Outcome KeyError (ExtendedKey × ℕ))
  unfolding try_index
  get_derived_key zero master_key derivation_path index = none
  get_derived_key (suc fuel) master_key derivation_path index =
      let again = get_derived_key fuel master_key derivation_path (add64 index 1) in
      elim (try_index master_key derivation_path index) [
        | reached key ↦ some (ok (key, index))
        | start_over ↦ again
        | stopped e ↦ some (fail e)
      ]

  -- What `GetEthPrivateKey` does where the key is not in its cache, before it stores it.
  unfoldable pub eth_key_of : Outcome KeyError (ExtendedKey × ℕ) → Outcome KeyError EcdsaKey
  eth_key_of (ok (derived, _)) = elim (keys.ec_priv_key derived) [
    | some key ↦ ok key
    | none ↦ fail no_private_key
  ]
  eth_key_of (fail e) = fail e
  eth_key_of panic = panic

  -- The rest of it: the key is stored in the cache.
  unfoldable pub store_eth :
      ℕ
      → Outcome KeyError EcdsaKey
      → KeyGenerator ExtendedKey EcdsaKey BlsKey
      → Outcome KeyError EcdsaKey × KeyGenerator ExtendedKey EcdsaKey BlsKey
  store_eth index (ok key) g = (ok key, record g { eth_keys = insert index key g.eth_keys })
  store_eth index (fail e) g = (fail e, g)
  store_eth index panic g = (panic, g)

  unfoldable pub get_eth_private_key :
      ℕ
      → ℕ
      → KeyGenerator ExtendedKey EcdsaKey BlsKey
      → Option (Outcome KeyError EcdsaKey × KeyGenerator ExtendedKey EcdsaKey BlsKey)
  unfolding get_derived_key eth_key_of store_eth
  get_eth_private_key fuel index g = elim (lookup index g.eth_keys) [
    | some key ↦ some (ok key, g)
    | none ↦ elim (get_derived_key fuel g.master_key g.eth_derivation_path index) [
      | none ↦ none
      | some derived ↦ some (store_eth index (eth_key_of derived) g)
    ]
  ]

  unfoldable pub get_bls_private_key :
      ℕ
      → KeyGenerator ExtendedKey EcdsaKey BlsKey
      → Outcome KeyError BlsKey × KeyGenerator ExtendedKey EcdsaKey BlsKey
  get_bls_private_key index g = elim (lookup index g.bls_keys) [
    | some key ↦ (ok key, g)
    | none ↦
        let path = sprintf g.bls_derivation_path index in
        elim (keys.private_key_from_seed_and_path g.seed path) [
          | none ↦ (fail (no_validator_key path), g)
          | some key ↦ (ok key, record g { bls_keys = insert index key g.bls_keys })
        ]
  ]
