-- ===== src/Beacon/Database.antt =====
-- beacon/db/database.go: the mock database, over the heap of validators. Each method of the source
-- holds the mutex from its first line to its return, so methods run one after the other; the
-- logger is not modelled.
pub mod View
pub mod Allocation
pub mod Registry
pub mod CloneLoop
pub mod Cloning
pub mod Slots
pub mod Deposits
pub mod Updates
use osha.Base.{
  ℕ, Bool, true, false, List, [], ◌∷◌, ◌++◌, Option, none, some, Dict, lookup, insert, copy,
  Outcome, ok, fail, panic, length, get_elem?, ltb, leb, nat_beq, nat_eq, add64, if◌then◌else◌,
}
use osha.Beacon.External.{Packages}
use osha.Beacon.Validator.{new_validator, clone}
use osha.Beacon.Heap.{Heap, alloc}

pub record Database : Type 0 where
  pub validators : List ℕ
  pub pending_deposits : List ℕ
  pub validator_pubkey_map : Dict ℕ ℕ
  pub execution_block_map : Dict ℕ ℕ
  pub current_slot : ℕ
  pub highest_slot : ℕ
  pub next_execution_block_index : ℕ

pub data DatabaseError : Type 0 where
  validator_exists : ℕ → DatabaseError

unfoldable pub new_database : ℕ → Database
new_database first_execution_block_index = record {
  validators = [];
  pending_deposits = [];
  validator_pubkey_map = [];
  execution_block_map = [];
  current_slot = 0;
  highest_slot = 0;
  next_execution_block_index = first_execution_block_index;
}

-- The branch of `AddValidator` that appends the new validator.
register : Packages → ℕ → ℕ → Database → Heap → Database × Heap
unfolding new_validator alloc
register core pubkey withdrawal_credentials db h = (
  record db {
    validators = db.validators ++ h.next ∷ [];
    validator_pubkey_map = insert pubkey h.next db.validator_pubkey_map;
  },
  alloc (new_validator core pubkey withdrawal_credentials (length db.validators)) h,
)

unfoldable pub add_validator :
    Packages → ℕ → ℕ → Database → Heap → Outcome DatabaseError ℕ × Database × Heap
unfolding register
add_validator core pubkey withdrawal_credentials db h =
    elim (lookup pubkey db.validator_pubkey_map) [
      | some _ ↦ (fail (validator_exists pubkey), db, h)
      | none ↦
          let (db', h') = register core pubkey withdrawal_credentials db h in (ok h.next, db', h')
    ]

-- `none` is the nil pointer.
unfoldable pub get_validator_by_index : ℕ → Database → Option ℕ
get_validator_by_index index db =
    if leb (length db.validators) index then none else get_elem? db.validators index

unfoldable pub get_validator_by_pubkey : ℕ → Database → Option ℕ
get_validator_by_pubkey pubkey db = lookup pubkey db.validator_pubkey_map

unfoldable pub get_all_validators : Database → List ℕ
get_all_validators db = db.validators

unfoldable pub get_current_slot : Database → ℕ
get_current_slot db = db.current_slot

unfoldable pub get_highest_slot : Database → ℕ
get_highest_slot db = db.highest_slot

unfoldable pub add_pending_deposit : ℕ → Database → Database
add_pending_deposit deposit db = record db {
  pending_deposits = db.pending_deposits ++ deposit ∷ [];
}

unfoldable pub get_pending_deposits : Database → List ℕ
get_pending_deposits db = db.pending_deposits

-- The loop of `RemovePendingDeposit`: it compares pointers.
unfoldable pub without : ℕ → List ℕ → List ℕ
without deposit [] = []
without deposit (d ∷ ds) =
    let rest = without deposit ds in if nat_beq d deposit then rest else d ∷ rest

-- `make` panics on the capacity -1, which it is given when no deposit is pending.
unfoldable pub remove_pending_deposit : ℕ → Database → Outcome DatabaseError Database
unfolding without
remove_pending_deposit deposit db = elim db.pending_deposits [
  | [] ↦ panic
  | d ∷ ds ↦ ok (record db { pending_deposits = without deposit (d ∷ ds) })
]

-- The first `if` of `CommitBlock`.
propose : Bool → Database → Database
propose false db = db
propose true db = record db {
  execution_block_map = insert db.current_slot db.next_execution_block_index db.execution_block_map;
  next_execution_block_index = add64 db.next_execution_block_index 1;
}

-- The rest of it.
advance : Database → Database
advance db =
    let slot = add64 db.current_slot 1 in
    record db {
      current_slot = slot;
      highest_slot = if ltb db.highest_slot slot then slot else db.highest_slot;
    }

unfoldable pub commit_block : Bool → Database → Database
unfolding propose advance
commit_block slot_validated db = advance (propose slot_validated db)

unfoldable pub set_highest_slot : ℕ → Database → Database
set_highest_slot slot db =
    if ltb db.highest_slot slot then record db { highest_slot = slot } else db

-- The loop of `Clone` over the validators, from the slice and the map built so far.
unfoldable pub clone_validators : List ℕ → Dict ℕ ℕ → Heap → List ℕ × Dict ℕ ℕ × Heap
unfolding clone alloc
clone_validators [] pubkeys h = ([], pubkeys, h)
clone_validators (p ∷ ps) pubkeys h =
    let (qs, pubkeys', h') =
      clone_validators ps (insert (h.validator p).pubkey h.next pubkeys)
        (alloc (clone (h.validator p)) h) in
    (h.next ∷ qs, pubkeys', h')

unfoldable pub clone_database : Database → Heap → Database × Heap
unfolding new_database clone_validators
clone_database db h =
    let (validators, pubkeys, h') = clone_validators db.validators [] h in
    (
      record (new_database db.next_execution_block_index) {
        current_slot = db.current_slot;
        highest_slot = db.highest_slot;
        validators = validators;
        validator_pubkey_map = pubkeys;
        execution_block_map = copy db.execution_block_map;
      },
      h',
    )
