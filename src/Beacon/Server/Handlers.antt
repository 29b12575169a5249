-- ===== src/Beacon/Server/Handlers.antt =====
-- The handlers of beacon/server/, one for each file. Each begins with `processApiRequest`, which
-- with a nil body only reads the query. net/http runs handlers side by side; the model runs them
-- one after the other.
use osha.Base.{
  ℕ, List, [], Option, none, some, Text, bytes, text_beq, Outcome, ok, fail, panic, if◌then◌else◌,
}
use osha.Go.Strconv.{NumError, parse_uint, parse_bool}
use osha.Beacon.External.{Packages}
use osha.Beacon.Heap.{modify}
use osha.Beacon.Validator.{Validator, set_balance, set_status, slash}
use osha.Beacon.Database.{DatabaseError}
use osha.Beacon.Manager.{
  BeaconMockManager, ManagerError, add_validator, commit_block, get_validator, set_highest_slot,
}
use osha.Beacon.Format.{get_validator_meta}
use osha.Beacon.Provider.{
  beacon_finality_checkpoints, beacon_genesis, beacon_validators, beacon_pending_deposits,
  config_deposit_contract, config_spec, node_syncing,
}
use osha.Beacon.Server.{
  Request, ServerError, invalid, unreadable_body, malformed_body, manager_error, database_error,
  slash_error, Message, validator_response, add_validator_response, validators_response,
  pending_deposits_response, finality_checkpoints_response, genesis_response,
  deposit_contract_response, config_response, sync_status_response, Json, Action, ◌>>=◌, pure, lift,
  query_arg, first_of_values, path_var,
}
use osha.Beacon.Server.Ids.{get_validator_ids}

-- The errors of the callees, as `handleInputError` reports them.
abbrev pub of_manager {ℓ} : {A : Type ℓ} → Outcome ManagerError A → Outcome ServerError A
of_manager (ok a) = ok a
of_manager (fail e) = fail (manager_error e)
of_manager panic = panic

abbrev pub of_database {ℓ} : {A : Type ℓ} → Outcome DatabaseError A → Outcome ServerError A
of_database (ok a) = ok a
of_database (fail e) = fail (database_error e)
of_database panic = panic

abbrev pub of_number {ℓ} : {A : Type ℓ} → Text → Text → Outcome NumError A → Outcome ServerError A
of_number name value (ok a) = ok a
of_number name value (fail _) = fail (invalid name value)
of_number name value panic = panic

-- A method call on a nil pointer panics.
abbrev pub not_nil {ℓ} : {A : Type ℓ} → Option A → Outcome ServerError A
not_nil (some a) = ok a
not_nil none = panic

-- `if status == ""`
abbrev pub not_empty : Text → Outcome ServerError (Unit {0})
not_empty status = if text_beq status [] then fail (invalid (bytes "status") status) else ok tt

-- The calls of the handlers on the manager and on a validator.
unfoldable pub register_validator : Packages → ℕ → ℕ → Action ℕ
register_validator core pubkey creds n =
    let (r, manager, heap) = add_validator core pubkey creds n.manager n.heap in
    (of_database r, record { manager = manager; heap = heap })

unfoldable pub find_validator : Packages → Text → Action (Option ℕ)
find_validator core id n = (of_manager (get_validator core id n.manager), n)

unfoldable pub read_validator : ℕ → Action Validator
read_validator p n = (ok (n.heap.validator p), n)

unfoldable pub update_validator : ℕ → (Validator → Validator) → Action (Unit {0})
update_validator p f n = (ok tt, record n { heap = modify p f n.heap })

unfoldable pub update_manager : (BeaconMockManager → BeaconMockManager) → Action (Unit {0})
update_manager f n = (ok tt, record n { manager = f n.manager })

-- `Slash` writes through its pointer only where it returns no error.
unfoldable pub slash_validator : Packages → ℕ → ℕ → Action (Unit {0})
slash_validator core penalty p n = elim (slash core penalty (n.heap.validator p)) [
  | ok v ↦ (ok tt, record n { heap = modify p (λ _. v) n.heap })
  | fail e ↦ (fail (slash_error e), n)
  | panic ↦ (panic, n)
]

abbrev pub parse_pubkey : Packages → Text → Outcome ServerError ℕ
parse_pubkey core text = elim (core.hex_to_validator_pubkey text) [
  | some pubkey ↦ ok pubkey
  | none ↦ fail (invalid (bytes "pubkey") text)
]

-- The ids of a GET request; a missing key gives the nil slice.
abbrev pub ids_from_args : Request → List Text
ids_from_args r = elim (query_arg (bytes "id") r) [
  | ok ids ↦ get_validator_ids ids
  | fail _ ↦ get_validator_ids []
  | panic ↦ get_validator_ids []
]

-- The ids of a POST request.
abbrev pub ids_from_body : Json → Request → Outcome ServerError (List Text)
ids_from_body json r = elim r.body [
  | none ↦ fail unreadable_body
  | some body ↦ elim (json.unmarshal_ids body) [
    | none ↦ fail malformed_body
    | some ids ↦ ok (get_validator_ids ids)
  ]
]

module _ (core : Packages) where
  unfoldable pub add_validator_handler : Request → Action (Option Message)
  unfolding register_validator read_validator
  add_validator_handler r = do
    pubkeys ← lift (query_arg (bytes "pubkey") r)
    all_creds ← lift (query_arg (bytes "creds") r)
    pubkey_string ← lift (first_of_values pubkeys)
    pubkey ← lift (parse_pubkey core pubkey_string)
    creds ← lift (first_of_values all_creds)
    p ← register_validator core pubkey (core.hex_to_hash creds)
    validator ← read_validator p
    pure (some (add_validator_response validator.index))

  unfoldable pub commit_block_handler : Request → Action (Option Message)
  unfolding update_manager
  commit_block_handler r = do
    values ← lift (query_arg (bytes "validated") r)
    validated_string ← lift (first_of_values values)
    validated ← lift (of_number (bytes "validated") validated_string (parse_bool validated_string))
    _ ← update_manager (commit_block validated)
    pure none

  unfoldable pub set_highest_slot_handler : Request → Action (Option Message)
  unfolding update_manager
  set_highest_slot_handler r = do
    values ← lift (query_arg (bytes "slot") r)
    slot_string ← lift (first_of_values values)
    slot ← lift (of_number (bytes "slot") slot_string (parse_uint 64 slot_string))
    _ ← update_manager (set_highest_slot slot)
    pure none

  unfoldable pub set_balance_handler : Request → Action (Option Message)
  unfolding find_validator update_validator
  set_balance_handler r = do
    ids ← lift (query_arg (bytes "id") r)
    balances ← lift (query_arg (bytes "balance") r)
    balance_string ← lift (first_of_values balances)
    balance ← lift (of_number (bytes "balance") balance_string (parse_uint 64 balance_string))
    id ← lift (first_of_values ids)
    found ← find_validator core id
    validator ← lift (not_nil found)
    _ ← update_validator validator (set_balance balance)
    pure none

  unfoldable pub set_status_handler : Request → Action (Option Message)
  unfolding find_validator update_validator
  set_status_handler r = do
    ids ← lift (query_arg (bytes "id") r)
    statuses ← lift (query_arg (bytes "status") r)
    status ← lift (first_of_values statuses)
    _ ← lift (not_empty status)
    id ← lift (first_of_values ids)
    found ← find_validator core id
    validator ← lift (not_nil found)
    _ ← update_validator validator (set_status status)
    pure none

  unfoldable pub slash_handler : Request → Action (Option Message)
  unfolding find_validator slash_validator
  slash_handler r = do
    ids ← lift (query_arg (bytes "id") r)
    penalties ← lift (query_arg (bytes "penalty") r)
    penalty_string ← lift (first_of_values penalties)
    penalty ← lift (of_number (bytes "penalty") penalty_string (parse_uint 64 penalty_string))
    id ← lift (first_of_values ids)
    found ← find_validator core id
    validator ← lift (not_nil found)
    _ ← slash_validator core penalty validator
    pure none

  unfoldable pub get_validator_handler : Request → Action (Option Message)
  unfolding find_validator read_validator
  get_validator_handler r = do
    id ← lift (path_var (bytes "validator_id") r)
    found ← find_validator core id
    p ← lift (not_nil found)
    validator ← read_validator p
    pure (some (validator_response (get_validator_meta validator)))

  -- `beacon_validators` on the node, which it does not change.
  unfoldable pub validators_of : List Text → Action (Option Message)
  validators_of ids n = elim (beacon_validators core ids n.manager n.heap) [
    | ok metas ↦ (ok (some (validators_response metas)), n)
    | fail e ↦ (fail (manager_error e), n)
    | panic ↦ (panic, n)
  ]

-- The handlers that only read the manager.
abbrev pub reading : (BeaconMockManager → Message) → Action (Option Message)
reading f n = (ok (some (f n.manager)), n)

unfoldable pub get_sync_status_handler : Action (Option Message)
get_sync_status_handler = reading (λ m. sync_status_response (node_syncing m))

unfoldable pub get_deposit_contract_handler : Action (Option Message)
get_deposit_contract_handler = reading (λ m. deposit_contract_response (config_deposit_contract m))

unfoldable pub get_config_spec_handler : Action (Option Message)
get_config_spec_handler = reading (λ m. config_response (config_spec m))

unfoldable pub get_beacon_genesis_handler : Action (Option Message)
get_beacon_genesis_handler = reading (λ m. genesis_response (beacon_genesis m))

unfoldable pub get_finality_checkpoints_handler : Request → Action (Option Message)
get_finality_checkpoints_handler r = do
  state ← lift (path_var (bytes "state_id") r)
  reading (λ m. finality_checkpoints_response (beacon_finality_checkpoints m))

-- url.URL.Query never returns nil, so the test on `args` always passes.
unfoldable pub get_pending_deposits_handler : Request → Action (Option Message)
get_pending_deposits_handler r = do
  state ← lift (path_var (bytes "state_id") r)
  λ n. (ok (some (pending_deposits_response (beacon_pending_deposits n.manager n.heap))), n)
