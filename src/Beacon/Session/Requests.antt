-- ===== src/Beacon/Session/Requests.antt =====
-- Every request that the server of beacon/server/ handles is one step on the node.
use osha.Base.{List, lookup, text_eq, inl, inr, Option, Text, bytes, Outcome-cases, Option-cases}
use osha.Beacon.External.{Packages}
use osha.Beacon.Database.View.{IsValid}
use osha.Beacon.Server.{Request, Method, get, post, other, Message, Json, Node, Action, path_var}
use osha.Beacon.Server.Handlers.{
  read_validator, get_validator_handler, validators_of, ids_from_args, ids_from_body,
  get_finality_checkpoints_handler, get_pending_deposits_handler, get_sync_status_handler,
  get_deposit_contract_handler, get_config_spec_handler, get_beacon_genesis_handler,
}
use osha.Beacon.Provider.{beacon_validators}
use osha.Beacon.Server.Routes.{
  Route, validators_route, validator_route, syncing_route, deposit_contract_route,
  beacon_genesis_route, config_spec_route, finality_checkpoints_route, pending_deposits_route,
  add_validator_route, commit_block_route, set_balance_route, set_status_route, slash_route,
  set_highest_slot_route, handle, only_get, get_validators_handler, validators_by_method,
}
use osha.Beacon.Session.Steps.{Step, stay}
use osha.Beacon.Session.Updates.{
  add_validator-Step, commit_block-Step, find_validator-Step, lift-Step, set_balance-Step,
  set_highest_slot-Step, set_status-Step, slash-Step,
}

module _ (core : Packages) where
  get_validator-Step :
      (r : Request) (n : Node)
      → IsValid n.manager.database n.heap
      → Step core n (get_validator_handler core r n).1
  unfolding get_validator_handler read_validator
  get_validator-Step r n v =
      lift-Step core (path_var (bytes "validator_id") r) _ n
        λ id. find_validator-Step core id _ n v (λ p i. stay) stay

  validators_of-Step : (ids : List Text) (n : Node) → Step core n (validators_of core ids n).1
  unfolding validators_of
  validators_of-Step ids n = elim (Outcome-cases (beacon_validators core ids n.manager n.heap)) [
    | inl (metas, e) ↦ rw (e, validators_of) stay
    | inr (inl (x, e)) ↦ rw (e, validators_of) stay
    | inr (inr e) ↦ rw (e, validators_of) stay
  ]

module _ (core : Packages) (json : Json) where
  only_get-Step :
      (r : Request) (a : Action (Option Message)) (n : Node)
      → Step core n (a n).1
      → Step core n (only_get r.method json a n).1
  only_get-Step r a n s = by_method r.method
    where
      by_method : (m : Method) → Step core n (only_get m json a n).1
      by_method get = unfold only_get in s
      by_method post = unfold only_get in stay
      by_method (other t) = unfold only_get in stay

  validators_by_method-Step :
      (m : Method) (r : Request) (n : Node) → Step core n (validators_by_method core json m r n).1
  unfolding validators_by_method
  validators_by_method-Step get r n = validators_of-Step core (ids_from_args r) n
  validators_by_method-Step post r n =
      lift-Step core (ids_from_body json r) (validators_of core) n
        (λ ids. validators_of-Step core ids n)
  validators_by_method-Step (other t) r n = stay

  get_validators-Step :
      (r : Request) (n : Node) → Step core n (get_validators_handler core json r n).1
  unfolding get_validators_handler
  get_validators-Step r n = elim (Option-cases (lookup (bytes "state_id") r.vars)) [
    | inl e ↦ rw (e, get_validators_handler) stay
    | inr (state, e) ↦ rw (e, get_validators_handler) (validators_by_method-Step r.method r n)
  ]

  -- Whatever the route and the request, the server makes one of the steps.
  pub handle-Step :
      (route : Route) (r : Request) (n : Node)
      → IsValid n.manager.database n.heap
      → Step core n (handle core json route r n).1
  unfolding handle
  handle-Step validators_route r n v = get_validators-Step r n
  handle-Step validator_route r n v = only_get-Step r _ n (get_validator-Step core r n v)
  handle-Step syncing_route r n v = only_get-Step r _ n (unfold get_sync_status_handler in stay)
  handle-Step deposit_contract_route r n v =
      only_get-Step r _ n (unfold get_deposit_contract_handler in stay)
  handle-Step beacon_genesis_route r n v =
      only_get-Step r _ n (unfold get_beacon_genesis_handler in stay)
  handle-Step config_spec_route r n v = only_get-Step r _ n (unfold get_config_spec_handler in stay)
  handle-Step finality_checkpoints_route r n v = only_get-Step r _ n (
      unfold get_finality_checkpoints_handler in
      lift-Step core (path_var (bytes "state_id") r) _ n (λ _. stay))
  handle-Step pending_deposits_route r n v = only_get-Step r _ n (
      unfold get_pending_deposits_handler in
      lift-Step core (path_var (bytes "state_id") r) _ n (λ _. stay))
  handle-Step add_validator_route r n v = only_get-Step r _ n (add_validator-Step core r n)
  handle-Step commit_block_route r n v = only_get-Step r _ n (commit_block-Step core r n)
  handle-Step set_balance_route r n v = only_get-Step r _ n (set_balance-Step core r n v)
  handle-Step set_status_route r n v = only_get-Step r _ n (set_status-Step core r n v)
  handle-Step slash_route r n v = only_get-Step r _ n (slash-Step core r n v)
  handle-Step set_highest_slot_route r n v = only_get-Step r _ n (set_highest_slot-Step core r n)
