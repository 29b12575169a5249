-- ===== src/Beacon/Server/Routes.antt =====
-- The routes that beacon/server/server.go registers (beacon/api/routes.go), and what each runs. The
-- router of gorilla/mux, which picks the route of a path, is not modelled.
use osha.Base.{Option, bytes, ok, fail, panic}
use osha.Beacon.External.{Packages}
use osha.Beacon.Server.{
  Request, Method, get, post, other, Message, Json, Node, Action, ◌>>=◌, lift, path_var, Response,
  wrote, panicked, finish, handle_invalid_method, handle_input_error,
}
use osha.Beacon.Server.Handlers.{
  add_validator_handler, commit_block_handler, set_balance_handler, set_status_handler,
  slash_handler, set_highest_slot_handler, get_validator_handler, validators_of, ids_from_args,
  ids_from_body, get_sync_status_handler, get_deposit_contract_handler, get_config_spec_handler,
  get_beacon_genesis_handler, get_finality_checkpoints_handler, get_pending_deposits_handler,
}

pub data Route : Type 0 where
  validators_route validator_route syncing_route deposit_contract_route : Route
  beacon_genesis_route config_spec_route finality_checkpoints_route pending_deposits_route : Route
  add_validator_route commit_block_route set_balance_route set_status_route : Route
  slash_route set_highest_slot_route : Route

unfoldable pub respond : Json → Action (Option Message) → Node → Response × Node
unfolding finish
respond json action n = let (r, n') = action n in (finish json r, n')

-- `switch r.Method { case http.MethodGet: ... default: handleInvalidMethod }`
unfoldable pub only_get : Method → Json → Action (Option Message) → Node → Response × Node
unfolding respond
only_get get json action n = respond json action n
only_get post json action n = (wrote handle_invalid_method, n)
only_get (other _) json action n = (wrote handle_invalid_method, n)

module _ (core : Packages) (json : Json) where
  -- The switch of `getValidators`.
  unfoldable pub validators_by_method : Method → Request → Node → Response × Node
  unfolding respond
  validators_by_method get r n = respond json (validators_of core (ids_from_args r)) n
  validators_by_method post r n =
      respond json (lift (ids_from_body json r) >>= validators_of core) n
  validators_by_method (other _) r n = (wrote handle_invalid_method, n)

  unfoldable pub get_validators_handler : Request → Node → Response × Node
  unfolding validators_by_method
  get_validators_handler r n = elim (path_var (bytes "state_id") r) [
    | ok _ ↦ validators_by_method r.method r n
    | fail e ↦ (wrote (handle_input_error json e), n)
    | panic ↦ (panicked, n)
  ]

  unfoldable pub handle : Route → Request → Node → Response × Node
  unfolding get_validators_handler only_get
  handle validators_route r n = get_validators_handler r n
  handle validator_route r n = only_get r.method json (get_validator_handler core r) n
  handle syncing_route r n = only_get r.method json get_sync_status_handler n
  handle deposit_contract_route r n = only_get r.method json get_deposit_contract_handler n
  handle beacon_genesis_route r n = only_get r.method json get_beacon_genesis_handler n
  handle config_spec_route r n = only_get r.method json get_config_spec_handler n
  handle finality_checkpoints_route r n =
      only_get r.method json (get_finality_checkpoints_handler r) n
  handle pending_deposits_route r n = only_get r.method json (get_pending_deposits_handler r) n
  handle add_validator_route r n = only_get r.method json (add_validator_handler core r) n
  handle commit_block_route r n = only_get r.method json (commit_block_handler core r) n
  handle set_balance_route r n = only_get r.method json (set_balance_handler core r) n
  handle set_status_route r n = only_get r.method json (set_status_handler core r) n
  handle slash_route r n = only_get r.method json (slash_handler core r) n
  handle set_highest_slot_route r n = only_get r.method json (set_highest_slot_handler core r) n
