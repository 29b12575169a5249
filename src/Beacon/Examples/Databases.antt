-- ===== src/Beacon/Examples/Databases.antt =====
-- The theorems about beacon/db/database.go at the database of the small node.
use mathlib.Core.Option
use osha.Base.{
  count, ℕ, ◌≡◌, ◌≢◌, ◌⊎◌, true, false, [], ◌∷◌, ok, panic, lookup, arith, if◌then◌else◌, nat_beq,
  nat_eq, Outcome,
}
use osha.Beacon.Validator.{Validator}
use osha.Beacon.Database.{
  DatabaseError, new_database, add_validator, clone_database, add_pending_deposit,
  remove_pending_deposit,
}
use osha.Beacon.Database.View.{View, view, IsValid}
use osha.Beacon.Database.Allocation.{add_value, deref}
use osha.Beacon.Database.Registry.{add_validator_refines}
use osha.Beacon.Database.Cloning.{clone_database-IsValid, view-clone_database}
use osha.Beacon.Database.Slots.{block_at, commit_all, commit_all_lem}
use osha.Beacon.Database.Deposits.{remove-add_pending_deposit, remove_pending_deposit_lem}
use osha.Beacon.Examples.{core, database, database-IsValid, heap}

add_validator_refines_example :
    let r = add_validator core 7 2 database heap in
    ◌≡◌ {A = Outcome DatabaseError Validator × View}
      (deref r.2 r.0, view r.1 r.2)
      (add_value core 7 2 (view database heap))
add_validator_refines_example = add_validator_refines core 7 2 database heap database-IsValid

clone_database-IsValid_example :
    IsValid (clone_database database heap).0 (clone_database database heap).1
clone_database-IsValid_example = clone_database-IsValid database heap database-IsValid

view-clone_database_example :
    view (clone_database database heap).0 (clone_database database heap).1
    ≡ record (view database heap) { deposits = [] }
view-clone_database_example = view-clone_database database heap database-IsValid

-- A proposal, a missed slot and another proposal.
commit_all_lem_example :
    let db = commit_all (true ∷ false ∷ true ∷ []) (new_database 100) in
    (db.current_slot ≡ 3)
    × (db.highest_slot ≡ 3)
    × (db.next_execution_block_index ≡ 102)
    × ((s : ℕ) → lookup s db.execution_block_map ≡ block_at 100 (true ∷ false ∷ true ∷ []) s)
commit_all_lem_example = commit_all_lem 100 (true ∷ false ∷ true ∷ []) (omega arith) (omega arith)

remove-add_pending_deposit_example :
    remove_pending_deposit 6 (add_pending_deposit 6 database) ≡ ok database
remove-add_pending_deposit_example =
    remove-add_pending_deposit 6 database ((λ e. absurd (omega arith)), tt)

remove_pending_deposit_lem_example :
    ((database.pending_deposits ≡ []) × (remove_pending_deposit 4 database ≡ panic))
    ⊎ ((database.pending_deposits ≢ [])
        × ((ds : _) × (remove_pending_deposit 4 database
              ≡ ok (record database { pending_deposits = ds }))
            × ((x : ℕ)
                → count x ds ≡ (if nat_beq x 4 then 0 else count x database.pending_deposits))))
remove_pending_deposit_lem_example = remove_pending_deposit_lem 4 database
