-- ===== src/Keys/Fresh.antt =====
-- `NewKeyGenerator` of keys/keygen.go: its caches are empty.
use osha.Base.{
  ◌≡◌, [], Option, none, some, Text, nat_eq, ok, fail, Bool, true, false, if◌then◌else◌,
}
use osha.Keys.{
  KeyPackages, no_bls, no_master_key, invalid_mnemonic, KeyGenerator, new_key_generator,
}

-- A new generator has empty caches.
pub new_empty :
    {ExtendedKey EcdsaKey BlsKey : Type 0} (keys : KeyPackages ExtendedKey EcdsaKey BlsKey)
    (mnemonic eth_path bls_path : Text) (g : KeyGenerator ExtendedKey EcdsaKey BlsKey)
    → new_key_generator keys mnemonic eth_path bls_path ≡ ok g
    → (g.eth_keys ≡ []) × (g.bls_keys ≡ [])
unfolding new_key_generator
new_empty {ExtendedKey} keys mnemonic eth_path bls_path g =
    by_parts (keys.is_mnemonic_valid mnemonic) keys.initialize_bls
      (keys.new_master (keys.new_seed mnemonic))
  where
    by_parts :
        (b : Bool) (i : Option (Unit {0})) (m : Option ExtendedKey)
        → (if b
            then elim i [
              | none ↦ fail no_bls
              | some _ ↦ elim m [
                | none ↦ fail no_master_key
                | some master_key ↦ ok (record {
                  mnemonic = mnemonic;
                  eth_derivation_path = eth_path;
                  bls_derivation_path = bls_path;
                  seed = keys.new_seed mnemonic;
                  master_key = master_key;
                  eth_keys = [];
                  bls_keys = [];
                })
              ]
            ]
            else fail (invalid_mnemonic mnemonic))
          ≡ ok g
        → (g.eth_keys ≡ []) × (g.bls_keys ≡ [])
    by_parts false i m e = absurd (cc)
    by_parts true none m e = absurd (cc)
    by_parts true (some _) none e = absurd (cc)
    by_parts true (some _) (some master_key) e = (cc, cc)
