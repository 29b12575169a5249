-- ===== src/Beacon/Manager.antt =====
-- beacon/manager/manager.go: the manager of the mock, its snapshots and its lookups. The logger and
-- the embedded provider interface are not modelled.
pub mod Lookup
use osha.Base.{
  ℕ, ◌*◌, Bool, ◌||◌, List, [], ◌∷◌, ◌++◌, Option, none, some, Dict, lookup, insert, Text, bytes,
  text_eq, Outcome, ok, fail, panic, ◌>>=◌, length, nat_beq, if◌then◌else◌,
}
use osha.Go.Strconv.{parse_uint}
use osha.Go.Strings.{has_prefix}
use osha.Beacon.External.{Packages}
use osha.Beacon.Config.{Config}
use osha.Beacon.Heap.{Heap}
use osha.Beacon.Database
use osha.Beacon.Database.{Database, DatabaseError, new_database, clone_database}

pub record BeaconMockManager : Type 0 where
  pub database : Database
  pub config : Config
  pub snapshots : Dict Text Database

pub data ManagerError : Type 0 where
  no_snapshot : Text → ManagerError
  bad_pubkey : Text → ManagerError
  bad_index : Text → ManagerError

unfoldable pub new_beacon_mock_manager : Config → BeaconMockManager
unfolding new_database
new_beacon_mock_manager config = record {
  database = new_database config.first_execution_block_index;
  config = config;
  snapshots = [];
}

unfoldable pub set_database : Database → BeaconMockManager → BeaconMockManager
set_database database m = record m { database = database }

unfoldable pub take_snapshot : Text → BeaconMockManager → Heap → BeaconMockManager × Heap
take_snapshot name m h =
    let (snapshot, h') = clone_database m.database h in
    (record m { snapshots = insert name snapshot m.snapshots }, h')

unfoldable pub revert_to_snapshot :
    Text → BeaconMockManager → Heap → Outcome ManagerError (Unit {0}) × BeaconMockManager × Heap
revert_to_snapshot name m h = elim (lookup name m.snapshots) [
  | none ↦ (fail (no_snapshot name), m, h)
  | some snapshot ↦
      let (database, h') = clone_database snapshot h in
      (ok tt, record m { database = database }, h')
]

unfoldable pub get_config : BeaconMockManager → Config
get_config m = m.config

unfoldable pub commit_block : Bool → BeaconMockManager → BeaconMockManager
commit_block slot_validated m = record m {
  database = Database.commit_block slot_validated m.database;
}

unfoldable pub get_current_slot : BeaconMockManager → ℕ
unfolding Database.get_current_slot
get_current_slot m = Database.get_current_slot m.database

unfoldable pub get_highest_slot : BeaconMockManager → ℕ
unfolding Database.get_highest_slot
get_highest_slot m = Database.get_highest_slot m.database

unfoldable pub set_highest_slot : ℕ → BeaconMockManager → BeaconMockManager
set_highest_slot slot m = record m { database = Database.set_highest_slot slot m.database }

unfoldable pub add_validator :
    Packages → ℕ → ℕ → BeaconMockManager → Heap → Outcome DatabaseError ℕ × BeaconMockManager × Heap
add_validator core pubkey withdrawal_credentials m h =
    let (r, database, h') =
      Database.add_validator core pubkey withdrawal_credentials m.database h in
    (r, record m { database = database }, h')

-- The test by which an id counts as a public key.
unfoldable pub is_pubkey : Packages → Text → Bool
is_pubkey core id =
    nat_beq (length id) (core.validator_pubkey_length * 2) || has_prefix (bytes "0x") id

unfoldable pub get_validator : Packages → Text → BeaconMockManager → Outcome ManagerError (Option ℕ)
get_validator core id m =
    if is_pubkey core id
    then elim (core.hex_to_validator_pubkey id) [
      | none ↦ fail (bad_pubkey id)
      | some pubkey ↦ ok (Database.get_validator_by_pubkey pubkey m.database)
    ]
    else elim (parse_uint 32 id) [
      | ok index ↦ ok (Database.get_validator_by_index index m.database)
      | fail _ ↦ fail (bad_index id)
      | panic ↦ panic
    ]

-- `validators = append(validators, validator)`, unless the pointer is nil.
abbrev pub append_found : List ℕ → Option ℕ → List ℕ
append_found validators none = validators
append_found validators (some p) = validators ++ p ∷ []

-- The loop of `GetValidators`.
unfoldable pub collect :
    Packages → BeaconMockManager → List ℕ → List Text → Outcome ManagerError (List ℕ)
collect core m validators [] = ok validators
collect core m validators (id ∷ ids) = do
  found ← get_validator core id m
  collect core m (append_found validators found) ids

unfoldable pub get_validators :
    Packages → List Text → BeaconMockManager → Outcome ManagerError (List ℕ)
unfolding collect
get_validators core [] m = ok (Database.get_all_validators m.database)
get_validators core (id ∷ ids) m = collect core m [] (id ∷ ids)

unfoldable pub get_pending_deposits : BeaconMockManager → List ℕ
get_pending_deposits m = Database.get_pending_deposits m.database

unfoldable pub add_pending_deposit : ℕ → BeaconMockManager → BeaconMockManager
add_pending_deposit deposit m = record m {
  database = Database.add_pending_deposit deposit m.database;
}

unfoldable pub remove_pending_deposit :
    ℕ → BeaconMockManager → Outcome DatabaseError BeaconMockManager
remove_pending_deposit deposit m = do
  database ← Database.remove_pending_deposit deposit m.database
  ok (record m { database = database })
