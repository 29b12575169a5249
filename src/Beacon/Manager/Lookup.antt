-- ===== src/Beacon/Manager/Lookup.antt =====
-- How `GetValidator` and `GetValidators` of beacon/manager/manager.go find validators by their ids.
use mathlib.Core.List.{append_assoc, append-nil}
use osha.Base.{
  ℕ, zero, suc, ◌+◌, ◌^◌, ◌<◌, ◌≡◌, refl, sym, ap, ◌∙◌, false, List, [], ◌∷◌, ◌++◌, Option, some,
  none, Text, bytes, Outcome, ok, fail, panic, ◌>>=◌, length, get_elem?, All, arith,
}
use osha.Go.Strconv.{
  IsDigit, format_uint, format_uint-IsDigit, length-format_uint, parse_uint-format_uint,
}
use osha.Go.Strings.{has_prefix}
use osha.Beacon.External.{Packages}
use osha.Beacon.Heap.{Heap}
use osha.Beacon.Database
use osha.Beacon.Database.View.{IsValid, Indexed}
use osha.Beacon.Manager.{
  BeaconMockManager, ManagerError, append_found, collect, get_validator, get_validators, is_pubkey,
}

no_hex : (s : Text) → All IsDigit s → has_prefix (bytes "0x") s ≡ false
unfolding has_prefix
no_hex [] a = refl
no_hex (c ∷ []) a = ground arith
no_hex (c ∷ d ∷ s) a = ground (arith, a.1.0)

index_not_pubkey :
    (core : Packages) (i : ℕ)
    → 10 < core.validator_pubkey_length
    → is_pubkey core (format_uint i) ≡ false
unfolding is_pubkey
index_not_pubkey core i long =
    ground (arith, no_hex (format_uint i) (format_uint-IsDigit i), length-format_uint i)

-- A printed index is read as that index.
by_index :
    (core : Packages) (i : ℕ) (m : BeaconMockManager)
    → 10 < core.validator_pubkey_length
    → i < 2 ^ 32
    → get_validator core (format_uint i) m ≡ ok (Database.get_validator_by_index i m.database)
unfolding get_validator
by_index core i m long lt =
    rw (index_not_pubkey core i long, parse_uint-format_uint 32 i lt (omega arith))

at_index :
    (h : Heap) (ps : List ℕ) (start i : ℕ)
    → Indexed start ps h
    → i < length ps
    → (p : ℕ) × (get_elem? ps i ≡ some p) × ((h.validator p).index ≡ start + i)
at_index h [] start i ix lt = absurd (omega arith)
at_index h (p ∷ ps) start zero ix lt = (p, refl, omega (arith, ix.0))
at_index h (p ∷ ps) start (suc i) ix lt =
    let (q, e, w) = at_index h ps (suc start) i ix.1 (omega arith) in (q, e, omega (arith, w))

-- In a well-formed database, the decimal index of a registered validator, which is under 2^32, is
-- found, and what is found is a validator with this index. The public keys must have more than 10
-- bytes, so that no index is as long as a key in hexadecimal.
pub get_validator-format_uint :
    (core : Packages) (i : ℕ) (m : BeaconMockManager) (h : Heap)
    → 10 < core.validator_pubkey_length
    → IsValid m.database h
    → i < length m.database.validators
    → i < 2 ^ 32
    → (p : ℕ) × (get_validator core (format_uint i) m ≡ ok (some p)) × ((h.validator p).index ≡ i)
unfolding Database.get_validator_by_index
get_validator-format_uint core i m h long v lt small =
    let (p, e, ix) = at_index h m.database.validators 0 i v.indexed lt in
    (p, by_index core i m long small ∙ ground (arith, e), omega (arith, ix))

abbrev prepend : List ℕ → Outcome ManagerError (List ℕ) → Outcome ManagerError (List ℕ)
prepend found (ok rest) = ok (found ++ rest)
prepend found (fail e) = fail e
prepend found panic = panic

prepend-prepend :
    (xs ys : List ℕ) (r : Outcome ManagerError (List ℕ))
    → prepend xs (prepend ys r) ≡ prepend (xs ++ ys) r
prepend-prepend xs ys (ok zs) = ap ok (sym (append_assoc xs ys zs))
prepend-prepend xs ys (fail e) = refl
prepend-prepend xs ys panic = refl

prepend_nil : (r : Outcome ManagerError (List ℕ)) → prepend [] r ≡ r
prepend_nil (ok zs) = refl
prepend_nil (fail e) = refl
prepend_nil panic = refl

module _ (core : Packages) (m : BeaconMockManager) where
  -- The validators of the first of the ids, in front of those of the others.
  abbrev found_all : List Text → Outcome ManagerError (List ℕ)
  found_all [] = ok []
  found_all (id ∷ ids) =
      let rest = found_all ids in
      get_validator core id m >>= λ found. prepend (append_found [] found) rest

  append_found-append : (xs : List ℕ) (o : Option ℕ) → xs ++ append_found [] o ≡ append_found xs o
  append_found-append xs none = append-nil xs
  append_found-append xs (some p) = refl

  collect_from :
      (found : List ℕ) (ids : List Text) → collect core m found ids ≡ prepend found (found_all ids)
  unfolding collect
  collect_from found [] = ap ok (sym (append-nil found))
  collect_from found (id ∷ ids) = by_result (get_validator core id m) (λ xs. collect_from xs ids)
    where
      by_result :
          (r : Outcome ManagerError (Option ℕ))
          → ((xs : List ℕ) → collect core m xs ids ≡ prepend xs (found_all ids))
          → (r >>= λ o. collect core m (append_found found o) ids)
            ≡ prepend found (r >>= λ o. prepend (append_found [] o) (found_all ids))
      by_result (ok o) others =
          others (append_found found o)
          ∙ ap (λ xs. prepend xs (found_all ids)) (sym (append_found-append found o))
          ∙ sym (prepend-prepend found (append_found [] o) (found_all ids))
      by_result (fail e) others = refl
      by_result panic others = refl

  found_all-append :
      (ids more : List Text)
      → found_all (ids ++ more) ≡ (found_all ids >>= λ first. prepend first (found_all more))
  found_all-append [] more = sym (prepend_nil (found_all more))
  found_all-append (id ∷ ids) more =
      by_result (get_validator core id m) (found_all ids) (found_all-append ids more)
    where
      by_result :
          (r : Outcome ManagerError (Option ℕ)) (s : Outcome ManagerError (List ℕ))
          → found_all (ids ++ more) ≡ (s >>= λ first. prepend first (found_all more))
          → (r >>= λ o. prepend (append_found [] o) (found_all (ids ++ more))) ≡ (
              (r >>= λ o. prepend (append_found [] o) s) >>= λ first.
              prepend first (found_all more))
      by_result (ok o) (ok first) e =
          ap (prepend (append_found [] o)) e
          ∙ prepend-prepend (append_found [] o) first (found_all more)
      by_result (ok o) (fail x) e = ap (prepend (append_found [] o)) e
      by_result (ok o) panic e = ap (prepend (append_found [] o)) e
      by_result (fail x) s e = refl
      by_result panic s e = refl

  got : (id : Text) (ids : List Text) → get_validators core (id ∷ ids) m ≡ found_all (id ∷ ids)
  unfolding get_validators
  got id ids = collect_from [] (id ∷ ids) ∙ prepend_nil (found_all (id ∷ ids))

-- A request for the validators of two lists of ids, neither of them empty, returns the validators of
-- the first list and then those of the second. If an id cannot be read, the request fails as the
-- request for the first list with such an id does.
pub get_validators-append :
    (core : Packages) (m : BeaconMockManager) (id next : Text) (ids more : List Text)
    → get_validators core (id ∷ ids ++ next ∷ more) m ≡ (do
      first ← get_validators core (id ∷ ids) m
      rest ← get_validators core (next ∷ more) m
      ok (first ++ rest))
get_validators-append core m id next ids more =
    got core m id (ids ++ next ∷ more)
    ∙ found_all-append core m (id ∷ ids) (next ∷ more)
    ∙ by_results (found_all core m (id ∷ ids)) (found_all core m (next ∷ more))
    ∙ rw (got core m id ids, got core m next more)
  where
    by_results :
        (r s : Outcome ManagerError (List ℕ))
        → (r >>= λ first. prepend first s) ≡ (r >>= λ first. s >>= λ rest. ok (first ++ rest))
    by_results (ok first) (ok rest) = refl
    by_results (ok first) (fail e) = refl
    by_results (ok first) panic = refl
    by_results (fail e) s = refl
    by_results panic s = refl
