-- ===== src/Beacon/Database/Slots.antt =====
-- The slots and blocks of beacon/db/database.go: `CommitBlock` and `SetHighestSlot`.
use osha.Base.{
  ℕ, suc, ◌+◌, ◌-◌, ◌≤◌, ◌<◌, ◌≡◌, ◌∙◌, ◌⊎◌, inl, inr, refl, Bool, Bool-cases, true, false, List,
  [], ◌∷◌, Option, none, some, lookup, lookup-empty, lookup-insert, length, arith, ltb, nat_beq,
  nat_eq, u64_mod, if◌then◌else◌,
}
use osha.Beacon.Heap.{Heap}
use osha.Beacon.Database.{Database, new_database, commit_block, set_highest_slot}
use osha.Beacon.Database.View.{IsValid}

-- Committing a block keeps the database well formed; the local head never passes the highest slot,
-- also where the slot number wraps around.
pub commit_block-IsValid :
    (b : Bool) {db : Database} {h : Heap} → IsValid db h → IsValid (commit_block b db) h
unfolding commit_block
commit_block-IsValid true v = record {
  allocated = v.allocated;
  indexed = v.indexed;
  distinct = v.distinct;
  mapped = v.mapped;
  synced = ground (arith, v.synced);
}
commit_block-IsValid false v = record {
  allocated = v.allocated;
  indexed = v.indexed;
  distinct = v.distinct;
  mapped = v.mapped;
  synced = ground (arith, v.synced);
}

-- The highest slot never falls, and it reaches the slot that is asked for.
pub set_highest_slot_lem :
    (slot : ℕ) (db : Database)
    → let db' = set_highest_slot slot db in
      (db.highest_slot ≤ db'.highest_slot)
      × (slot ≤ db'.highest_slot)
      × ((db'.highest_slot ≡ slot) ⊎ (db'.highest_slot ≡ db.highest_slot))
      × (db'.current_slot ≡ db.current_slot)
unfolding set_highest_slot
set_highest_slot_lem slot db = ground arith

pub set_highest_slot-IsValid :
    (slot : ℕ) {db : Database} {h : Heap} → IsValid db h → IsValid (set_highest_slot slot db) h
unfolding set_highest_slot
set_highest_slot-IsValid slot {db} {h} v = elim (Bool-cases (ltb db.highest_slot slot)) [
  | inl up ↦
      rw (up, set_highest_slot)
        (record {
          allocated = v.allocated;
          indexed = v.indexed;
          distinct = v.distinct;
          mapped = v.mapped;
          synced = ground (arith, v.synced);
        })
  | inr stay ↦ rw (stay, set_highest_slot) v
]

pub validators-commit_block :
    (b : Bool) (db : Database) → (commit_block b db).validators ≡ db.validators
unfolding commit_block
validators-commit_block true db = refl
validators-commit_block false db = refl

pub validators-set_highest_slot :
    (slot : ℕ) (db : Database) → (set_highest_slot slot db).validators ≡ db.validators
unfolding set_highest_slot
validators-set_highest_slot slot db = ground arith

-- The slots one after the other: `true` proposes a block, `false` misses the slot.
abbrev pub commit_all : List Bool → Database → Database
commit_all [] db = db
commit_all (b ∷ bs) db = commit_all bs (commit_block b db)

-- How many blocks a history proposes.
abbrev pub proposals : List Bool → ℕ
proposals [] = 0
proposals (true ∷ bs) = suc (proposals bs)
proposals (false ∷ bs) = proposals bs

-- The execution block of the slot `i` of a history whose first proposal gets the block `n`.
unfoldable pub block_at : ℕ → List Bool → ℕ → Option ℕ
block_at n [] i = none
block_at n (true ∷ bs) i = if nat_beq i 0 then some n else block_at (suc n) bs (i - 1)
block_at n (false ∷ bs) i = if nat_beq i 0 then none else block_at n bs (i - 1)

-- Both counters stay under 2^64 while the history is committed.
abbrev pub Fits : List Bool → Database → Type 0
Fits bs db =
    (db.current_slot + length bs < u64_mod) × (db.next_execution_block_index + length bs < u64_mod)

-- No slot from the current one on has a block.
abbrev pub NoFuture : Database → Type 0
NoFuture db = (s : ℕ) → db.current_slot ≤ s → lookup s db.execution_block_map ≡ none

counters-commit_all :
    (bs : List Bool) (db : Database)
    → Fits bs db
    → ((commit_all bs db).current_slot ≡ db.current_slot + length bs)
      × ((commit_all bs db).next_execution_block_index
          ≡ db.next_execution_block_index + proposals bs)
unfolding commit_block
counters-commit_all [] db f = (omega arith, omega arith)
counters-commit_all (true ∷ bs) db f =
    omega (arith, counters-commit_all bs (commit_block true db) (omega arith, omega arith))
counters-commit_all (false ∷ bs) db f =
    omega (arith, counters-commit_all bs (commit_block false db) (omega arith, omega arith))

highest-commit_all :
    (bs : List Bool) (db : Database)
    → Fits bs db
    → db.current_slot ≤ db.highest_slot
    → (commit_all bs db).highest_slot ≡ (
        if ltb db.highest_slot (db.current_slot + length bs)
        then db.current_slot + length bs
        else db.highest_slot)
unfolding commit_block
highest-commit_all [] db f le = ground arith
highest-commit_all (true ∷ bs) db f le =
    ground (arith, highest-commit_all bs (commit_block true db) (omega arith, omega arith))
highest-commit_all (false ∷ bs) db f le =
    ground (arith, highest-commit_all bs (commit_block false db) (omega arith, omega arith))

commit_block-NoFuture :
    (b : Bool) (db : Database)
    → db.current_slot + 1 < u64_mod
    → NoFuture db
    → NoFuture (commit_block b db)
unfolding commit_block
commit_block-NoFuture true db f none_yet s le = rw lookup-insert (ground (arith, none_yet s))
commit_block-NoFuture false db f none_yet s le = none_yet s (omega arith)

blocks-commit_all :
    (bs : List Bool) (db : Database) (s : ℕ)
    → Fits bs db
    → NoFuture db
    → lookup s (commit_all bs db).execution_block_map ≡ (
        if ltb s db.current_slot
        then lookup s db.execution_block_map
        else block_at db.next_execution_block_index bs (s - db.current_slot))
unfolding commit_block block_at
blocks-commit_all [] db s f n = ground (arith, n s)
blocks-commit_all (true ∷ bs) db s f n =
    let later = commit_block-NoFuture true db (omega arith) n in
    ground (
      arith,
      n s,
      blocks-commit_all bs (commit_block true db) s (omega arith, omega arith) later,
      lookup-insert db.current_slot s db.next_execution_block_index db.execution_block_map,
    )
blocks-commit_all (false ∷ bs) db s f n =
    let later = commit_block-NoFuture false db (omega arith) n in
    ground
      (arith, n s, blocks-commit_all bs (commit_block false db) s (omega arith, omega arith) later)

-- The chain of a new database, for a history of slots that keeps its two counters under 2^64: the
-- slots are numbered from 0, the highest slot is the current one, each proposed slot has the next
-- execution block from the first index on, and a missed or future slot has none.
pub commit_all_lem :
    (first : ℕ) (bs : List Bool)
    → length bs < u64_mod
    → first + length bs < u64_mod
    → let db = commit_all bs (new_database first) in
      (db.current_slot ≡ length bs)
      × (db.highest_slot ≡ length bs)
      × (db.next_execution_block_index ≡ first + proposals bs)
      × ((s : ℕ) → lookup s db.execution_block_map ≡ block_at first bs s)
unfolding new_database
commit_all_lem first bs f g =
    let db = new_database first in
    let counters = counters-commit_all bs db (omega arith, omega arith) in
    (
      omega (arith, counters.0),
      highest-commit_all bs db (omega arith, omega arith) (omega arith) ∙ ground arith,
      counters.1,
      λ s.
          blocks-commit_all bs db s (omega arith, omega arith) (λ t _. lookup-empty t)
          ∙ ground arith,
    )
