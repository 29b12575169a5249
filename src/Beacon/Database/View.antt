-- ===== src/Beacon/Database/View.antt =====
-- What a database of beacon/db/database.go means: the values behind its pointers, and when the
-- slice, the map and the heap agree.
use osha.Base.{
  ℕ, suc, ◌+◌, ◌≤◌, ◌<◌, ◌≡◌, refl, List, [], ◌∷◌, ◌++◌, map, Option, none, some, lookup, length,
  All, arith, nat_beq, nat_eq, if◌then◌else◌,
}
use osha.Beacon.Validator.{Validator}
use osha.Beacon.Deposit.{Deposit}
use osha.Beacon.Heap.{Heap}
use osha.Beacon.Database.{Database}

-- The contents of a database, with no pointers: what a client of the package can observe.
pub record View : Type 0 where
  pub validators : List Validator
  pub deposits : List Deposit
  pub blocks : ℕ → Option ℕ
  pub current_slot : ℕ
  pub highest_slot : ℕ
  pub next_execution_block_index : ℕ

abbrev pub view : Database → Heap → View
view db h = record {
  validators = map h.validator db.validators;
  deposits = map h.deposit db.pending_deposits;
  blocks = λ slot. lookup slot db.execution_block_map;
  current_slot = db.current_slot;
  highest_slot = db.highest_slot;
  next_execution_block_index = db.next_execution_block_index;
}

-- The first pointer of the slice that leads to a validator with the public key.
unfoldable pub find : ℕ → List ℕ → Heap → Option ℕ
find k [] h = none
find k (p ∷ ps) h = if nat_beq (h.validator p).pubkey k then some p else find k ps h

-- The validators carry the indices `i`, `i + 1` and so on.
abbrev pub Indexed : ℕ → List ℕ → Heap → Type 0
Indexed i [] h = Unit {0}
Indexed i (p ∷ ps) h = ((h.validator p).index ≡ i) × Indexed (suc i) ps h

-- No two validators have the same public key.
abbrev pub Distinct : List ℕ → Heap → Type 0
Distinct [] h = Unit {0}
Distinct (p ∷ ps) h = (find (h.validator p).pubkey ps h ≡ none) × Distinct ps h

pub record IsValid (db : Database) (h : Heap) : Type 0 where
  pub allocated : All (λ p. p < h.next) db.validators
  pub indexed : Indexed 0 db.validators h
  pub distinct : Distinct db.validators h
  pub mapped : (k : ℕ) → lookup k db.validator_pubkey_map ≡ find k db.validators h
  pub synced : db.current_slot ≤ db.highest_slot

-- `h'` gives the validators of the slice the keys and indices that `h` gives them.
abbrev pub SameKeys : List ℕ → Heap → Heap → Type 0
SameKeys ps h h' =
    All
      (λ p.
        ((h'.validator p).pubkey ≡ (h.validator p).pubkey)
        × ((h'.validator p).index ≡ (h.validator p).index))
      ps

pub find-same : (k : ℕ) (ps : List ℕ) (h h' : Heap) → SameKeys ps h h' → find k ps h' ≡ find k ps h
unfolding find
find-same k [] h h' same = refl
find-same k (p ∷ ps) h h' same = rw (same.0.0, find-same k ps h h' same.1)

pub Indexed-same :
    (i : ℕ) (ps : List ℕ) (h h' : Heap) → SameKeys ps h h' → Indexed i ps h → Indexed i ps h'
Indexed-same i [] h h' same ix = tt
Indexed-same i (p ∷ ps) h h' same ix = (rw same.0.1 ix.0, Indexed-same (suc i) ps h h' same.1 ix.1)

pub Distinct-same : (ps : List ℕ) (h h' : Heap) → SameKeys ps h h' → Distinct ps h → Distinct ps h'
Distinct-same [] h h' same d = tt
Distinct-same (p ∷ ps) h h' same d =
    (rw (same.0.0, find-same _ ps h h' same.1) d.0, Distinct-same ps h h' same.1 d.1)

pub IsValid-same :
    {db : Database} {h h' : Heap}
    → SameKeys db.validators h h'
    → h.next ≤ h'.next
    → IsValid db h
    → IsValid db h'
IsValid-same {db} {h} {h'} same le v = record {
  allocated = later db.validators v.allocated;
  indexed = Indexed-same 0 db.validators h h' same v.indexed;
  distinct = Distinct-same db.validators h h' same v.distinct;
  mapped = λ k. rw (find-same k db.validators h h' same) (v.mapped k);
  synced = v.synced;
}
  where
    later : (ps : List ℕ) → All (λ p. p < h.next) ps → All (λ p. p < h'.next) ps
    later [] a = tt
    later (p ∷ ps) a = (omega arith, later ps a.1)

module _ (h : Heap) (q : ℕ) where
  pub find-append :
      (k : ℕ) (ps : List ℕ)
      → find k (ps ++ q ∷ []) h ≡ (elim (find k ps h) [
        | some p ↦ some p
        | none ↦ if nat_beq (h.validator q).pubkey k then some q else none
      ])
  unfolding find
  find-append k [] = refl
  find-append k (p ∷ ps) = ground (arith, find-append k ps)

  pub Indexed-append :
      (i : ℕ) (ps : List ℕ)
      → Indexed i ps h
      → (h.validator q).index ≡ i + length ps
      → Indexed i (ps ++ q ∷ []) h
  Indexed-append i [] ix e = (omega arith, tt)
  Indexed-append i (p ∷ ps) ix e = (ix.0, Indexed-append (suc i) ps ix.1 (omega arith))

  pub Distinct-append :
      (ps : List ℕ)
      → Distinct ps h
      → find (h.validator q).pubkey ps h ≡ none
      → Distinct (ps ++ q ∷ []) h
  unfolding find
  Distinct-append [] d e = (refl, tt)
  Distinct-append (p ∷ ps) d e =
      (rw find-append (ground arith), Distinct-append ps d.1 (ground arith))
