-- ===== src/Beacon/Database/Registry.antt =====
-- `AddValidator` and the lookups of beacon/db/database.go against a list of validators.
use mathlib.Core.List.{map-append}
use mathlib.Core.Option
use osha.Base.{
  ℕ, ◌≤◌, zero, suc, sym, ◌∙◌, ◌<◌, ◌≡◌, ◌⊎◌, refl, ap, List, [], ◌∷◌, ◌++◌, map, lookup, length,
  length-map, get_elem?, get_elem?_of_le, All, map-agree, Outcome, ok, arith, nat_eq, Option-cases,
  inl, inr,
}
use osha.Beacon.External.{Packages}
use osha.Beacon.Validator.{Validator, new_validator}
use osha.Beacon.Heap.{Heap, alloc}
use osha.Beacon.Database.{Database, DatabaseError, add_validator, get_validator_by_index}
use osha.Beacon.Database.View.{View, view, IsValid}
use osha.Beacon.Database.Allocation.{
  add_value, alloc_self, alloc-validator, deref, extended, extended-IsValid, find-value,
}

-- Registering keeps the database well formed, whether the public key is new or not.
pub add_validator-IsValid :
    (core : Packages) (pubkey creds : ℕ) (db : Database) (h : Heap)
    → IsValid db h
    → IsValid (add_validator core pubkey creds db h).1 (add_validator core pubkey creds db h).2
unfolding add_validator
add_validator-IsValid core pubkey creds db h valid =
    elim (Option-cases (lookup pubkey db.validator_pubkey_map)) [
      | inr (p, e) ↦ rw (e, add_validator) valid
      | inl e ↦
          rw (e, add_validator)
            (extended-IsValid (new_validator core pubkey creds (length db.validators)) db h valid
              refl (sym (valid.mapped pubkey) ∙ e))
    ]

-- What the heap holds for the extended slice.
map-extended :
    (v : Validator) (h : Heap) (ps : List ℕ)
    → All (λ p. p < h.next) ps
    → map (alloc v h).validator (ps ++ h.next ∷ []) ≡ map h.validator ps ++ v ∷ []
map-extended v h ps a =
    rw (map-append, alloc_self v h)
      (ap (λ vs. vs ++ v ∷ [])
        (map-agree (alloc v h).validator h.validator ps (alloc-validator v h ps a)))

registered :
    (db : Database) (h : Heap) (valid : IsValid db h) (v : Validator)
    → ◌≡◌ {A = Outcome DatabaseError Validator × View}
        (ok ((alloc v h).validator h.next), view (extended v db h) (alloc v h))
        (ok v, record (view db h) { validators = map h.validator db.validators ++ v ∷ [] })
unfolding alloc
registered db h valid v = λ i. (
  ok (alloc_self v h i),
  record (view db h) { validators = map-extended v h db.validators valid.allocated i },
)

-- `add_validator` does to the validators behind the pointers what `add_value` does to the list of
-- them: a public key that is there is refused and nothing changes; a new one gets the next index,
-- and its validator, with the default fields, is appended and returned.
pub add_validator_refines :
    (core : Packages) (pubkey creds : ℕ) (db : Database) (h : Heap)
    → IsValid db h
    → let r = add_validator core pubkey creds db h in
      ◌≡◌ {A = Outcome DatabaseError Validator × View}
        (deref r.2 r.0, view r.1 r.2)
        (add_value core pubkey creds (view db h))
unfolding add_validator
add_validator_refines core pubkey creds db h valid =
    elim (Option-cases (lookup pubkey db.validator_pubkey_map)) [
      | inr (p, e) ↦ rw (
        e,
        add_validator,
        add_value,
        sym (find-value pubkey db.validators h)
            ∙ ap (Option.map h.validator) (sym (valid.mapped pubkey) ∙ e),
      )
      | inl e ↦
          rw
            (
              e,
              add_validator,
              add_value,
              sym (find-value pubkey db.validators h)
                  ∙ ap (Option.map h.validator) (sym (valid.mapped pubkey) ∙ e),
              length-map h.validator db.validators,
            )
            (registered db h valid (new_validator core pubkey creds (length db.validators)))
    ]

get_elem?-map :
    (h : Heap) (ps : List ℕ) (i : ℕ)
    → Option.map h.validator (get_elem? ps i) ≡ get_elem? (map h.validator ps) i
get_elem?-map h [] i = refl
get_elem?-map h (p ∷ ps) zero = refl
get_elem?-map h (p ∷ ps) (suc i) = get_elem?-map h ps i

-- A lookup by index finds the validator at that place of the list, or nil from its length on.
pub get_validator_by_index_refines :
    (i : ℕ) (db : Database) (h : Heap)
    → Option.map h.validator (get_validator_by_index i db) ≡ get_elem? (view db h).validators i
unfolding get_validator_by_index
get_validator_by_index_refines i db h =
    ground (arith, get_elem?-map h db.validators i, get_elem?_of_le db.validators i)

module _ (core : Packages) (pubkey creds : ℕ) (db : Database) (h : Heap) where
  -- Registering leaves the older objects alone.
  pub add_validator-frame :
      (x : ℕ) → x < h.next → (add_validator core pubkey creds db h).2.validator x ≡ h.validator x
  unfolding add_validator alloc
  add_validator-frame x lt = ground arith

  pub next-add_validator : h.next ≤ (add_validator core pubkey creds db h).2.next
  unfolding add_validator alloc
  next-add_validator = ground arith

  pub deposit-add_validator : (add_validator core pubkey creds db h).2.deposit ≡ h.deposit
  unfolding add_validator alloc
  deposit-add_validator = ground arith

  pub validators-add_validator :
      ((add_validator core pubkey creds db h).1.validators ≡ db.validators)
      ⊎ ((add_validator core pubkey creds db h).1.validators ≡ db.validators ++ h.next ∷ [])
  unfolding add_validator
  validators-add_validator = elim (Option-cases (lookup pubkey db.validator_pubkey_map)) [
    | inl e ↦ inr (rw (e, add_validator))
    | inr (p, e) ↦ inl (rw (e, add_validator))
  ]
