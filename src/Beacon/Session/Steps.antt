-- ===== src/Beacon/Session/Steps.antt =====
-- Every request and every call of the manager is one of a few steps on the node.
use osha.Base.{
  ℕ, zero, suc, ◌≡◌, ◌≢◌, ◌⊎◌, inl, inr, sym, ◌∙◌, Bool, List, [], ◌∷◌, some, get_elem?, Text,
  arith, nat_beq, Bool-cases, nat_eq,
}
use osha.Beacon.External.{Packages}
use osha.Beacon.Validator.{Validator}
use osha.Beacon.Heap.{Heap, modify}
use osha.Beacon.Database
use osha.Beacon.Database.{Database}
use osha.Beacon.Database.View.{find, IsValid}
use osha.Beacon.Database.Updates.{KeepsKeys}
use osha.Beacon.Manager
use osha.Beacon.Manager.{BeaconMockManager}
use osha.Beacon.Server.{Node}

-- The pointer is in the list.
abbrev pub In : ℕ → List ℕ → Type 0
In p [] = ⊥
In p (q ∷ ps) = (p ≡ q) ⊎ In p ps

abbrev pub with_database : Database → Node → Node
with_database db n = record n { manager = record n.manager { database = db } }

abbrev pub registered : Packages → ℕ → ℕ → Node → Node
registered core pubkey creds n =
    let (_, m, h) = Manager.add_validator core pubkey creds n.manager n.heap in
    record { manager = m; heap = h }

abbrev pub taken : Text → Node → Node
taken name n =
    let (m, h) = Manager.take_snapshot name n.manager n.heap in record { manager = m; heap = h }

abbrev pub reverted : Text → Node → Node
reverted name n =
    let (_, m, h) = Manager.revert_to_snapshot name n.manager n.heap in
    record { manager = m; heap = h }

-- The steps: nothing; a new slot; a new highest slot; other pending deposits; a registration; a
-- change, through a pointer of the current database, that leaves the keys alone.
pub data Step (core : Packages) (n : Node) : Node → Type 0 where
  stay : Step core n n
  commit : (b : Bool) → Step core n (with_database (Database.commit_block b n.manager.database) n)
  raise :
      (slot : ℕ) → Step core n (with_database (Database.set_highest_slot slot n.manager.database) n)
  deposit :
      (ds : List ℕ)
      → Step core n (with_database (record n.manager.database { pending_deposits = ds }) n)
  register : (pubkey creds : ℕ) → Step core n (registered core pubkey creds n)
  change :
      (p : ℕ) (f : Validator → Validator)
      → KeepsKeys f
      → In p n.manager.database.validators
      → Step core n (record n { heap = modify p f n.heap })

-- A move is a step, a snapshot or a return to one.
pub data Move (core : Packages) (n : Node) : Node → Type 0 where
  move : {n' : Node} → Step core n n' → Move core n n'
  take : (name : Text) → Move core n (taken name n)
  revert : (name : Text) → Move core n (reverted name n)

-- A move that takes no snapshot under the name.
abbrev pub Spares : (name : Text) (core : Packages) {n n' : Node} → Move core n n' → Type 0
Spares name core (move s) = Unit {0}
Spares name core (take name') = name ≢ name'
Spares name core (revert name') = Unit {0}

pub In-find : (k p : ℕ) (ps : List ℕ) (h : Heap) → find k ps h ≡ some p → In p ps
unfolding find
In-find k p [] h e = cc
In-find k p (q ∷ ps) h e = elim (Bool-cases (nat_beq (h.validator q).pubkey k)) [
  | inl hit ↦ inl (ground arith)
  | inr miss ↦ inr (In-find k p ps h (ground arith))
]

pub In-get_elem? : (p i : ℕ) (ps : List ℕ) → get_elem? ps i ≡ some p → In p ps
In-get_elem? p i [] e = cc
In-get_elem? p zero (q ∷ ps) e = inl (cc)
In-get_elem? p (suc i) (q ∷ ps) e = inr (In-get_elem? p i ps e)

-- A pointer that a lookup returns is in the slice.
pub In-by_index :
    (i p : ℕ) (db : Database) → Database.get_validator_by_index i db ≡ some p → In p db.validators
unfolding Database.get_validator_by_index
In-by_index i p db e = In-get_elem? p i db.validators (ground arith)

pub In-by_pubkey :
    (k p : ℕ) (db : Database) (h : Heap)
    → IsValid db h
    → Database.get_validator_by_pubkey k db ≡ some p
    → In p db.validators
unfolding Database.get_validator_by_pubkey
In-by_pubkey k p db h v e = In-find k p db.validators h (sym (v.mapped k) ∙ e)
