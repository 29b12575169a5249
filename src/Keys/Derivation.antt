-- ===== src/Keys/Derivation.antt =====
-- `getDerivedKey` of keys/keygen.go: which index it ends at, and that it ends.
use osha.Base.{
  ℕ, zero, suc, ◌+◌, ◌<◌, ◌≡◌, ◌≢◌, ◌⊎◌, inl, inr, subst, add64_of_lt, refl, ◌∙◌, ap, Option, none,
  some, Text, Outcome, ok, fail, arith, u64_mod,
}
use osha.Keys.{
  KeyPackages, KeyError, Walk, reached, start_over, stopped, try_index, get_derived_key,
}

module _ {ExtendedKey EcdsaKey BlsKey : Type 0}
    (keys : KeyPackages ExtendedKey EcdsaKey BlsKey) where
  -- What a try that does not start over returns.
  abbrev pub settled : ℕ → Walk ExtendedKey → Option (Outcome KeyError (ExtendedKey × ℕ))
  settled index (reached key) = some (ok (key, index))
  settled index start_over = none
  settled index (stopped e) = some (fail e)

  walk-cases :
      (w : Walk ExtendedKey)
      → ((key : ExtendedKey) × (w ≡ reached key))
        ⊎ ((w ≡ start_over) ⊎ ((e : KeyError) × (w ≡ stopped e)))
  walk-cases (reached key) = inl (key, refl)
  walk-cases start_over = inr (inl refl)
  walk-cases (stopped e) = inr (inr (e, refl))

  -- A try that does not start over is the last one.
  last_try :
      (fuel : ℕ) (master : ExtendedKey) (path : Text) (index : ℕ)
      → try_index keys master path index ≢ start_over
      → get_derived_key keys (suc fuel) master path index
        ≡ settled index (try_index keys master path index)
  unfolding get_derived_key
  last_try fuel master path index ends = elim (walk-cases (try_index keys master path index)) [
    | inl (key, e) ↦ rw (e, get_derived_key)
    | inr (inl e) ↦ absurd (ends e)
    | inr (inr (x, e)) ↦ rw (e, get_derived_key)
  ]

  -- A try that starts over leaves the rest to the next index.
  next_try :
      (fuel : ℕ) (master : ExtendedKey) (path : Text) (index : ℕ)
      → try_index keys master path index ≡ start_over
      → index + 1 < u64_mod
      → get_derived_key keys (suc fuel) master path index
        ≡ get_derived_key keys fuel master path (index + 1)
  unfolding get_derived_key
  next_try fuel master path index e fits =
      rw (e, get_derived_key)
        (ap (get_derived_key keys fuel master path) (add64_of_lt index 1 fits))

  -- If the tries of the `k` indices from `index` on meet an invalid child, and the try of the next
  -- one does not, then the derivation returns what that try comes to, with the index that it is for,
  -- for every fuel above `k`, as long as the index does not wrap around.
  pub get_derived_key_lem :
      (k fuel : ℕ) (master : ExtendedKey) (path : Text) (index : ℕ)
      → ((j : ℕ) → j < k → try_index keys master path (index + j) ≡ start_over)
      → try_index keys master path (index + k) ≢ start_over
      → index + k < u64_mod
      → k < fuel
      → get_derived_key keys fuel master path index
        ≡ settled (index + k) (try_index keys master path (index + k))
  unfolding get_derived_key
  get_derived_key_lem k zero master path index skip ends fits lt = absurd (omega arith)
  get_derived_key_lem zero (suc fuel) master path index skip ends fits lt =
      let same : index + 0 ≡ index = omega arith in
      rw same (
        last_try fuel master path index
          (subst (λ i. try_index keys master path i ≢ start_over) same ends))
  get_derived_key_lem (suc k) (suc fuel) master path index skip ends fits lt =
      let at : (j : ℕ) → index + suc j ≡ (index + 1) + j = λ j. omega arith in
      next_try fuel master path index
        (subst (λ i. try_index keys master path i ≡ start_over) (omega arith)
          (skip 0 (omega arith)))
        (omega arith)
      ∙ rw (at k) (
          get_derived_key_lem k fuel master path (index + 1)
            (λ j lt'.
              subst (λ i. try_index keys master path i ≡ start_over) (at j)
                (skip (suc j) (omega arith)))
            (subst (λ i. try_index keys master path i ≢ start_over) (at k) ends) (omega arith)
            (omega arith))
