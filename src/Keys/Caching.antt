-- ===== src/Keys/Caching.antt =====
-- The two caches of keys/keygen.go do not show: a generator answers as a new one does.
use osha.Base.{
  ℕ, ◌≡◌, refl, sym, subst, ap, ap₂, ◌∙◌, ◌⊎◌, inl, inr, List, [], ◌∷◌, map, Option, none, some,
  Text, Dict, lookup, lookup-insert, insert, nat_eq, nat_beq, Outcome, ok, fail, panic,
  Option-cases, Bool-cases, arith,
}
use osha.Go.Fmt.{sprintf}
use osha.Keys.{
  KeyPackages, KeyError, KeyGenerator, new_key_generator, get_derived_key, eth_key_of, store_eth,
  get_eth_private_key, get_bls_private_key,
}
use osha.Keys.Fresh.{new_empty}
use osha.Keys.Queries.{Query, eth, bls, Answer, eth_answer, bls_answer, ask, alone, ask_all}

-- What a cache holds after one more entry.
inserted :
    {K : Type 0} (i j : ℕ) (k k' : K) (c : Dict ℕ K)
    → lookup j (insert i k c) ≡ some k'
    → ((i ≡ j) × (k ≡ k')) ⊎ (lookup j c ≡ some k')
inserted i j k k' c e =
    let held = sym (lookup-insert i j k c) ∙ e in
    elim (Bool-cases (nat_beq i j)) [
      | inl hit ↦ ground (arith, held)
      | inr miss ↦ ground (arith, held)
    ]

module _ {ExtendedKey EcdsaKey BlsKey : Type 0} (keys : KeyPackages ExtendedKey EcdsaKey BlsKey)
    (fuel : ℕ) (g : KeyGenerator ExtendedKey EcdsaKey BlsKey) where
  abbrev with_caches : Dict ℕ EcdsaKey → Dict ℕ BlsKey → KeyGenerator ExtendedKey EcdsaKey BlsKey
  with_caches c d = record g { eth_keys = c; bls_keys = d }

  -- The caches hold what the generator derives without them.
  record IsCached (c : Dict ℕ EcdsaKey) (d : Dict ℕ BlsKey) : Type 0 where
    eth_cached :
        (i : ℕ) (k : EcdsaKey)
        → lookup i c ≡ some k
        → alone keys fuel (with_caches [] []) (eth i) ≡ some (eth_answer (ok k))
    bls_cached :
        (i : ℕ) (k : BlsKey)
        → lookup i d ≡ some k
        → alone keys fuel (with_caches [] []) (bls i) ≡ some (bls_answer (ok k))

  -- A call answers as the generator with empty caches does, and leaves such caches.
  abbrev Agrees :
      Query → Option (Answer EcdsaKey BlsKey × KeyGenerator ExtendedKey EcdsaKey BlsKey) → Type 0
  Agrees q none = alone keys fuel (with_caches [] []) q ≡ none
  Agrees q (some (a, g')) =
      (alone keys fuel (with_caches [] []) q ≡ some a)
      × ((c : Dict ℕ EcdsaKey) × (d : Dict ℕ BlsKey) × (g' ≡ with_caches c d) × IsCached c d)

  alone_out :
      (i : ℕ)
      → get_derived_key keys fuel g.master_key g.eth_derivation_path i ≡ none
      → alone keys fuel (with_caches [] []) (eth i) ≡ none
  unfolding ask get_eth_private_key lookup
  alone_out i out = rw (out, ask, get_eth_private_key)

  answer_of_stored :
      (i : ℕ) (r : Outcome KeyError EcdsaKey) (h : KeyGenerator ExtendedKey EcdsaKey BlsKey)
      → (store_eth keys i r h).0 ≡ r
  unfolding store_eth
  answer_of_stored i (ok k) h = refl
  answer_of_stored i (fail e) h = refl
  answer_of_stored i panic h = refl

  alone_found :
      (i : ℕ) (derived : Outcome KeyError (ExtendedKey × ℕ))
      → get_derived_key keys fuel g.master_key g.eth_derivation_path i ≡ some derived
      → alone keys fuel (with_caches [] []) (eth i) ≡ some (eth_answer (eth_key_of keys derived))
  unfolding ask get_eth_private_key lookup
  alone_found i derived found =
      rw (found, ask, get_eth_private_key)
        (ap (λ r. some (eth_answer r)) (answer_of_stored i (eth_key_of keys derived) _))

  eth_stored :
      (i : ℕ) (c : Dict ℕ EcdsaKey) (d : Dict ℕ BlsKey)
      → IsCached c d
      → (r : Outcome KeyError EcdsaKey)
      → alone keys fuel (with_caches [] []) (eth i) ≡ some (eth_answer r)
      → Agrees (eth i) (
          some (
            eth_answer (store_eth keys i r (with_caches c d)).0,
            (store_eth keys i r (with_caches c d)).1,
          ))
  unfolding store_eth
  eth_stored i c d v (fail e) a = (a, (c, d, refl, v))
  eth_stored i c d v panic a = (a, (c, d, refl, v))
  eth_stored i c d v (ok k) a = (
    a,
    (
      insert i k c,
      d,
      refl,
      record {
        eth_cached = λ j k' e. elim (inserted i j k k' c e) [
          | inl (same, same') ↦
              subst (λ l. alone keys fuel (with_caches [] []) (eth l) ≡ some (eth_answer (ok k')))
                same
                (subst (λ l. alone keys fuel (with_caches [] []) (eth i) ≡ some (eth_answer (ok l)))
                  same' a)
          | inr old ↦ v.eth_cached j k' old
        ];
        bls_cached = v.bls_cached;
      },
    ),
  )

  eth_Agrees :
      (i : ℕ) (c : Dict ℕ EcdsaKey) (d : Dict ℕ BlsKey)
      → IsCached c d
      → Agrees (eth i) (ask keys fuel (eth i) (with_caches c d))
  unfolding ask get_eth_private_key
  eth_Agrees i c d v = elim (Option-cases (lookup i c)) [
    | inr (k, e) ↦ rw (e, ask, get_eth_private_key) (v.eth_cached i k e, (c, d, refl, v))
    | inl e ↦ elim (Option-cases (get_derived_key keys fuel g.master_key g.eth_derivation_path i)) [
      | inl out ↦ rw (e, out, ask, get_eth_private_key) (alone_out i out)
      | inr (derived, found) ↦
          rw (e, found, ask, get_eth_private_key)
            (eth_stored i c d v (eth_key_of keys derived) (alone_found i derived found))
    ]
  ]

  alone_bls :
      (i : ℕ) (k : BlsKey)
      → keys.private_key_from_seed_and_path g.seed (sprintf g.bls_derivation_path i) ≡ some k
      → alone keys fuel (with_caches [] []) (bls i) ≡ some (bls_answer (ok k))
  unfolding ask get_bls_private_key lookup
  alone_bls i k found = rw (found, ask, get_bls_private_key)

  bls_stored :
      (i : ℕ) (c : Dict ℕ EcdsaKey) (d : Dict ℕ BlsKey)
      → IsCached c d
      → (k : BlsKey) → alone keys fuel (with_caches [] []) (bls i) ≡ some (bls_answer (ok k))
      → IsCached c (insert i k d)
  bls_stored i c d v k a = record {
    eth_cached = v.eth_cached;
    bls_cached = λ j k' e. elim (inserted i j k k' d e) [
      | inl (same, same') ↦
          subst (λ l. alone keys fuel (with_caches [] []) (bls l) ≡ some (bls_answer (ok k'))) same
            (subst (λ l. alone keys fuel (with_caches [] []) (bls i) ≡ some (bls_answer (ok l)))
              same' a)
      | inr old ↦ v.bls_cached j k' old
    ];
  }

  bls_Agrees :
      (i : ℕ) (c : Dict ℕ EcdsaKey) (d : Dict ℕ BlsKey)
      → IsCached c d
      → Agrees (bls i) (ask keys fuel (bls i) (with_caches c d))
  unfolding ask get_bls_private_key lookup
  bls_Agrees i c d v = elim (Option-cases (lookup i d)) [
    | inr (k, e) ↦ rw (e, ask, get_bls_private_key) (v.bls_cached i k e, (c, d, refl, v))
    | inl e ↦
        elim (Option-cases
          (keys.private_key_from_seed_and_path g.seed (sprintf g.bls_derivation_path i))) [
            | inl out ↦ rw (e, out, ask, get_bls_private_key) (refl, (c, d, refl, v))
            | inr (k, found) ↦
                rw (e, found, ask, get_bls_private_key)
                  (refl, (c, insert i k d, refl, bls_stored i c d v k (alone_bls i k found)))
          ]
  ]

  ask-Agrees :
      (q : Query) (c : Dict ℕ EcdsaKey) (d : Dict ℕ BlsKey)
      → IsCached c d
      → Agrees q (ask keys fuel q (with_caches c d))
  ask-Agrees (eth i) c d v = eth_Agrees i c d v
  ask-Agrees (bls i) c d v = bls_Agrees i c d v

  all_alone :
      (qs : List Query) (c : Dict ℕ EcdsaKey) (d : Dict ℕ BlsKey)
      → IsCached c d
      → ask_all keys fuel qs (with_caches c d) ≡ map (alone keys fuel (with_caches [] [])) qs
  unfolding ask_all
  all_alone [] c d v = refl
  all_alone (q ∷ qs) c d v =
      by_answer (ask keys fuel q (with_caches c d)) (ask-Agrees q c d v)
        (λ c' d' v'. all_alone qs c' d' v')
    where
      by_answer :
          (r : Option (Answer EcdsaKey BlsKey × KeyGenerator ExtendedKey EcdsaKey BlsKey))
          → Agrees q r
          → ((c' : Dict ℕ EcdsaKey) (d' : Dict ℕ BlsKey)
              → IsCached c' d'
              → ask_all keys fuel qs (with_caches c' d')
                ≡ map (alone keys fuel (with_caches [] [])) qs)
          → (elim r [
            | none ↦ none ∷ ask_all keys fuel qs (with_caches c d)
            | some (a, g') ↦ some a ∷ ask_all keys fuel qs g'
          ])
            ≡ alone keys fuel (with_caches [] []) q ∷ map (alone keys fuel (with_caches [] [])) qs
      by_answer none e rest = ap₂ ◌∷◌ (sym e) (rest c d v)
      by_answer (some (a, g')) (e, (c', d', same, v')) rest =
          ap₂ ◌∷◌ (sym e) (ap (ask_all keys fuel qs) same ∙ rest c' d' v')

nothing : {K : Type 0} {k : K} (i : ℕ) → lookup i [] ≡ some k → ⊥
unfolding lookup
nothing i e = absurd (cc)

-- A new generator answers any queries for wallet and validator keys, in any order and with
-- repetitions, as it answers each of them alone: the keys that it caches are the keys that it
-- derives, and no query changes the answer to another. (With little fuel, some answers are missing
-- on both sides.)
pub ask_all_lem :
    {ExtendedKey EcdsaKey BlsKey : Type 0} (keys : KeyPackages ExtendedKey EcdsaKey BlsKey)
    (fuel : ℕ) (mnemonic eth_path bls_path : Text) (g : KeyGenerator ExtendedKey EcdsaKey BlsKey)
    (qs : List Query)
    → new_key_generator keys mnemonic eth_path bls_path ≡ ok g
    → ask_all keys fuel qs g ≡ map (alone keys fuel g) qs
ask_all_lem keys fuel mnemonic eth_path bls_path g qs e =
    let (no_eth, no_bls_keys) = new_empty keys mnemonic eth_path bls_path g e in
    let empty : record g { eth_keys = []; bls_keys = [] } ≡ g =
      λ i. record g { eth_keys = sym no_eth i; bls_keys = sym no_bls_keys i } in
    subst (λ h. ask_all keys fuel qs h ≡ map (alone keys fuel h) qs) empty
      (all_alone keys fuel g qs [] [] (record {
        eth_cached = λ i k found. absurd (nothing i found);
        bls_cached = λ i k found. absurd (nothing i found);
      }))
