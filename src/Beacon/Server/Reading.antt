-- ===== src/Beacon/Server/Reading.antt =====
-- The routes of beacon/server/ that only read the node.
use osha.Base.{
  ℕ, List, ◌≡◌, refl, inl, inr, Option, Text, text_eq, lookup, Outcome, ok, fail, panic, bytes,
  Outcome-cases, Option-cases,
}
use osha.Beacon.External.{Packages}
use osha.Beacon.Manager
use osha.Beacon.Provider.{beacon_validators}
use osha.Beacon.Server.{
  Request, Method, get, post, other, ServerError, Message, Json, Node, Action, ◌>>=◌, lift,
  path_var, continue,
}
use osha.Beacon.Server.Handlers.{
  find_validator, get_validator_handler, validators_of, ids_from_args, ids_from_body, not_nil,
  of_manager, read_validator, get_finality_checkpoints_handler, get_pending_deposits_handler,
  get_sync_status_handler, get_deposit_contract_handler, get_config_spec_handler,
  get_beacon_genesis_handler,
}
use osha.Beacon.Server.Routes.{
  Route, validators_route, validator_route, syncing_route, deposit_contract_route,
  beacon_genesis_route, config_spec_route, finality_checkpoints_route, pending_deposits_route,
  add_validator_route, commit_block_route, set_balance_route, set_status_route, slash_route,
  set_highest_slot_route, handle, only_get, respond, get_validators_handler, validators_by_method,
}

-- The routes of the Beacon API; the others are the administration of the mock.
abbrev pub IsReading : Route → Type 0
IsReading add_validator_route = ⊥
IsReading commit_block_route = ⊥
IsReading set_balance_route = ⊥
IsReading set_status_route = ⊥
IsReading slash_route = ⊥
IsReading set_highest_slot_route = ⊥
IsReading _ = Unit {0}

reads-lift :
    {A B : Type 0} (r : Outcome ServerError A) (f : A → Action B) (n : Node)
    → ((a : A) → (f a n).1 ≡ n)
    → ((lift r >>= f) n).1 ≡ n
reads-lift (ok a) f n h = h a
reads-lift (fail e) f n h = refl
reads-lift panic f n h = refl

module _ (core : Packages) where
  reads-find_validator :
      {B : Type 0} (id : Text) (f : Option ℕ → Action B) (n : Node)
      → ((o : Option ℕ) → (f o n).1 ≡ n)
      → ((find_validator core id >>= f) n).1 ≡ n
  unfolding find_validator
  reads-find_validator id f n h = by_result (Manager.get_validator core id n.manager)
    where
      by_result :
          (r : Outcome Manager.ManagerError (Option ℕ)) → (continue (of_manager r) f n).1 ≡ n
      by_result (ok o) = h o
      by_result (fail e) = refl
      by_result panic = refl

  reads-get_validator : (r : Request) (n : Node) → (get_validator_handler core r n).1 ≡ n
  unfolding get_validator_handler read_validator
  reads-get_validator r n =
      reads-lift (path_var (bytes "validator_id") r) _ n
        λ id. reads-find_validator id _ n λ found. reads-lift (not_nil found) _ n λ p. refl

  reads-validators_of : (ids : List Text) (n : Node) → (validators_of core ids n).1 ≡ n
  unfolding validators_of
  reads-validators_of ids n = elim (Outcome-cases (beacon_validators core ids n.manager n.heap)) [
    | inl (metas, e) ↦ rw (e, validators_of)
    | inr (inl (x, e)) ↦ rw (e, validators_of)
    | inr (inr e) ↦ rw (e, validators_of)
  ]

module _ (core : Packages) (json : Json) where
  reads-only_get :
      (r : Request) (a : Action (Option Message)) (n : Node)
      → (a n).1 ≡ n
      → (only_get r.method json a n).1 ≡ n
  reads-only_get r a n h = by_method r.method
    where
      by_method : (m : Method) → (only_get m json a n).1 ≡ n
      by_method get = unfold only_get in unfold respond in h
      by_method post = unfold only_get in refl
      by_method (other t) = unfold only_get in refl

  reads-validators_by_method :
      (m : Method) (r : Request) (n : Node) → (validators_by_method core json m r n).1 ≡ n
  unfolding validators_by_method
  reads-validators_by_method get r n = reads-validators_of core (ids_from_args r) n
  reads-validators_by_method post r n =
      reads-lift (ids_from_body json r) (validators_of core) n
        (λ ids. reads-validators_of core ids n)
  reads-validators_by_method (other t) r n = refl

  reads-get_validators : (r : Request) (n : Node) → (get_validators_handler core json r n).1 ≡ n
  unfolding get_validators_handler
  reads-get_validators r n = elim (Option-cases (lookup (bytes "state_id") r.vars)) [
    | inl e ↦ rw (e, get_validators_handler)
    | inr (state, e) ↦ rw (e, get_validators_handler) (reads-validators_by_method r.method r n)
  ]

  -- A request of the Beacon API changes nothing on the node, whatever its method, its arguments and
  -- the answer.
  pub handle-reads :
      (route : Route) (r : Request) (n : Node)
      → IsReading route
      → (handle core json route r n).1 ≡ n
  unfolding handle
  handle-reads validators_route r n i = reads-get_validators r n
  handle-reads validator_route r n i = reads-only_get r _ n (reads-get_validator core r n)
  handle-reads syncing_route r n i = reads-only_get r _ n (unfold get_sync_status_handler in refl)
  handle-reads deposit_contract_route r n i =
      reads-only_get r _ n (unfold get_deposit_contract_handler in refl)
  handle-reads beacon_genesis_route r n i =
      reads-only_get r _ n (unfold get_beacon_genesis_handler in refl)
  handle-reads config_spec_route r n i =
      reads-only_get r _ n (unfold get_config_spec_handler in refl)
  handle-reads finality_checkpoints_route r n i = reads-only_get r _ n (
      unfold get_finality_checkpoints_handler in
      reads-lift (path_var (bytes "state_id") r) _ n (λ _. refl))
  handle-reads pending_deposits_route r n i = reads-only_get r _ n (
      unfold get_pending_deposits_handler in
      reads-lift (path_var (bytes "state_id") r) _ n (λ _. refl))
  handle-reads add_validator_route r n i = absurd i
  handle-reads commit_block_route r n i = absurd i
  handle-reads set_balance_route r n i = absurd i
  handle-reads set_status_route r n i = absurd i
  handle-reads slash_route r n i = absurd i
  handle-reads set_highest_slot_route r n i = absurd i
