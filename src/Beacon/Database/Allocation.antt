-- ===== src/Beacon/Database/Allocation.antt =====
-- A database of beacon/db/database.go with one more object on its heap.
use mathlib.Core.Option
use osha.Base.{
  ℕ, suc, insert, ◌<◌, ◌≡◌, refl, ap, List, [], ◌∷◌, ◌++◌, map, Option, none, some, lookup-insert,
  length, All, All-append, All-map, Outcome, ok, fail, panic, arith, nat_beq, nat_eq, if◌then◌else◌,
}
use osha.Beacon.External.{Packages}
use osha.Beacon.Validator.{Validator, new_validator}
use osha.Beacon.Heap.{Heap, alloc}
use osha.Beacon.Database.{Database, DatabaseError, validator_exists}
use osha.Beacon.Database.View.{
  View, find, IsValid, SameKeys, Indexed-same, Distinct-same, find-same, find-append,
  Indexed-append, Distinct-append,
}

-- A new object changes nothing for the pointers that are in use.
pub alloc-validator :
    (v : Validator) (h : Heap) (ps : List ℕ)
    → All (λ p. p < h.next) ps
    → All (λ p. (alloc v h).validator p ≡ h.validator p) ps
unfolding alloc
alloc-validator v h ps a = All-map (λ p lt. ground arith) ps a

pub alloc-SameKeys :
    (v : Validator) (h : Heap) (ps : List ℕ) → All (λ p. p < h.next) ps → SameKeys ps h (alloc v h)
alloc-SameKeys v h ps a =
    All-map (λ p e. (ap (λ (w : Validator). w.pubkey) e, ap (λ (w : Validator). w.index) e)) ps
      (alloc-validator v h ps a)

pub alloc_self : (v : Validator) (h : Heap) → (alloc v h).validator h.next ≡ v
unfolding alloc
alloc_self v h = ground arith

pub next-alloc : (v : Validator) (h : Heap) → (alloc v h).next ≡ suc h.next
unfolding alloc
next-alloc v h = refl

-- The specification: a list of validators, in the order of registration.
unfoldable pub find_value : ℕ → List Validator → Option Validator
find_value k [] = none
find_value k (v ∷ vs) = if nat_beq v.pubkey k then some v else find_value k vs

abbrev pub add_value : Packages → ℕ → ℕ → View → Outcome DatabaseError Validator × View
add_value core pubkey creds s = elim (find_value pubkey s.validators) [
  | some _ ↦ (fail (validator_exists pubkey), s)
  | none ↦
      let v = new_validator core pubkey creds (length s.validators) in
      (ok v, record s { validators = s.validators ++ v ∷ [] })
]

-- What a returned pointer leads to.
abbrev pub deref : Heap → Outcome DatabaseError ℕ → Outcome DatabaseError Validator
deref h (ok p) = ok (h.validator p)
deref h (fail e) = fail e
deref h panic = panic

pub find-value :
    (k : ℕ) (ps : List ℕ) (h : Heap)
    → Option.map h.validator (find k ps h) ≡ find_value k (map h.validator ps)
unfolding find find_value
find-value k [] h = refl
find-value k (p ∷ ps) h = ground (arith, find-value k ps h)

-- The database with one more validator.
abbrev pub extended : Validator → Database → Heap → Database
extended v db h = record db {
  validators = db.validators ++ h.next ∷ [];
  validator_pubkey_map = insert v.pubkey h.next db.validator_pubkey_map;
}

pub extended-IsValid :
    (v : Validator) (db : Database) (h : Heap)
    → IsValid db h
    → v.index ≡ length db.validators
    → find v.pubkey db.validators h ≡ none
    → IsValid (extended v db h) (alloc v h)
extended-IsValid v db h valid ix new =
    let h' = alloc v h in
    let ps = db.validators in
    let same = alloc-SameKeys v h ps valid.allocated in
    let self = alloc_self v h in
    let old = λ (k : ℕ). find-same k ps h h' same in
    record {
      allocated = rw next-alloc (
          All-append (λ p. p < suc h.next) ps (h.next ∷ [])
            (All-map {P = λ p. p < h.next} (λ p lt. omega arith) ps valid.allocated)
            (omega arith, tt));
      indexed =
          Indexed-append h' h.next 0 ps (Indexed-same 0 ps h h' same valid.indexed)
            (rw self (omega (arith, ix)));
      distinct =
          Distinct-append h' h.next ps (Distinct-same ps h h' same valid.distinct)
            (rw (self, old v.pubkey) new);
      mapped = λ k.
          rw (lookup-insert, valid.mapped k, find-append h' h.next k ps, old k)
            (ground (arith, new, ap (λ (w : Validator). w.pubkey) self));
      synced = valid.synced;
    }
