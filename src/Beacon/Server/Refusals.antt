-- ===== src/Beacon/Server/Refusals.antt =====
-- What a request of beacon/server/ that is refused leaves behind: nothing.
use osha.Base.{
  ℕ, nat_eq, [], ◌∷◌, ◌≡◌, ◌⊎◌, refl, inl, inr, Option, none, some, Text, text_eq, lookup, Outcome,
  ok, fail, panic, arith, bytes, Outcome-cases, Option-cases,
}
use osha.Go.Strconv.{parse_uint, parse_bool}
use osha.Beacon.External.{Packages}
use osha.Beacon.Validator.{slash}
use osha.Beacon.Database
use osha.Beacon.Manager
use osha.Beacon.Server.{
  Request, Method, get, post, other, ServerError, Message, Json, Node, Action, ◌>>=◌, lift,
  query_arg, continue, first_of_values, Response, wrote, panicked, finish, handle_success,
  handle_server_error,
}
use osha.Beacon.Server.Handlers.{
  register_validator, find_validator, update_validator, slash_validator, add_validator_handler,
  commit_block_handler, set_balance_handler, set_status_handler, slash_handler,
  set_highest_slot_handler, not_nil, of_manager, not_empty, of_number, parse_pubkey, read_validator,
  update_manager,
}
use osha.Beacon.Server.Routes.{
  Route, validators_route, validator_route, syncing_route, deposit_contract_route,
  beacon_genesis_route, config_spec_route, finality_checkpoints_route, pending_deposits_route,
  add_validator_route, commit_block_route, set_balance_route, set_status_route, slash_route,
  set_highest_slot_route, handle, only_get, respond,
}
use osha.Beacon.Server.Reading.{handle-reads}

-- The handler panics, or its first write says that the input or the method is wrong.
abbrev pub IsRefusal : Response → Type 0
IsRefusal panicked = Unit {0}
IsRefusal (wrote []) = ⊥
IsRefusal (wrote (w ∷ ws)) = (w.status ≡ 400) ⊎ (w.status ≡ 405)

-- An outcome that is not a value comes with the node as it was.
abbrev Clean : {A : Type 0} → Node → Outcome ServerError A × Node → Type 0
Clean n (ok a, n') = Unit {0}
Clean n (fail e, n') = n' ≡ n
Clean n (panic, n') = n' ≡ n

Clean-lift :
    {A B : Type 0} (r : Outcome ServerError A) (f : A → Action B) (n : Node)
    → ((a : A) → Clean n (f a n))
    → Clean n ((lift r >>= f) n)
Clean-lift (ok a) f n h = h a
Clean-lift (fail e) f n h = refl
Clean-lift panic f n h = refl

-- A last step that changes the node and is followed by no step that can fail.
Clean-last :
    {A B : Type 0} (r : Outcome ServerError A × Node) (n : Node) (f : A → Node → B)
    → Clean n r
    → Clean n (continue r.0 (λ a n'. (ok (f a n'), n')) r.1)
Clean-last (ok a, n') n f c = tt
Clean-last (fail e, n') n f c = c
Clean-last (panic, n') n f c = c

success_not_refused :
    (json : Json) (message : Option Message) → ¬ IsRefusal (wrote (handle_success json message))
unfolding handle_success handle_server_error
success_not_refused json none = λ i. ground (arith, i)
success_not_refused json (some message) = elim (Option-cases (json.marshal message)) [
  | inl e ↦ rw (e, handle_success) (λ i. ground (arith, i))
  | inr (t, e) ↦ rw (e, handle_success) (λ i. ground (arith, i))
]

Clean-finish :
    (json : Json) (r : Outcome ServerError (Option Message)) (n n' : Node)
    → Clean n (r, n')
    → IsRefusal (finish json r)
    → n' ≡ n
unfolding finish
Clean-finish json (ok message) n n' c i = absurd (success_not_refused json message i)
Clean-finish json (fail e) n n' c i = c
Clean-finish json panic n n' c i = c

module _ (core : Packages) where
  Clean-slash_validator : (penalty p : ℕ) (n : Node) → Clean n (slash_validator core penalty p n)
  unfolding slash_validator
  Clean-slash_validator penalty p n =
      elim (Outcome-cases (slash core penalty (n.heap.validator p))) [
        | inl (v, e) ↦ rw (e, slash_validator) tt
        | inr (inl (x, e)) ↦ rw (e, slash_validator)
        | inr (inr e) ↦ rw (e, slash_validator)
      ]

  Clean-register_validator :
      (pubkey creds : ℕ) (n : Node) → Clean n (register_validator core pubkey creds n)
  unfolding register_validator Manager.add_validator Database.add_validator
  Clean-register_validator pubkey creds n =
      elim (Option-cases (lookup pubkey n.manager.database.validator_pubkey_map)) [
        | inl e ↦ rw (e, Database.add_validator) tt
        | inr (p, e) ↦ rw (e, Database.add_validator) refl
      ]

  -- A handler that looks a validator up goes on with the same node, or ends with it.
  Clean-find_validator :
      {B : Type 0} (id : Text) (f : Option ℕ → Action B) (n : Node)
      → ((o : Option ℕ) → Clean n (f o n))
      → Clean n ((find_validator core id >>= f) n)
  unfolding find_validator
  Clean-find_validator id f n h = by_result (Manager.get_validator core id n.manager)
    where
      by_result :
          (r : Outcome Manager.ManagerError (Option ℕ)) → Clean n (continue (of_manager r) f n)
      by_result (ok o) = h o
      by_result (fail e) = refl
      by_result panic = refl

  Clean-add_validator : (r : Request) (n : Node) → Clean n (add_validator_handler core r n)
  unfolding add_validator_handler read_validator
  Clean-add_validator r n = Clean-lift (query_arg (bytes "pubkey") r) _ n λ pubkeys.
      Clean-lift (query_arg (bytes "creds") r) _ n λ all_creds.
        Clean-lift (first_of_values pubkeys) _ n λ key.
          Clean-lift (parse_pubkey core key) _ n λ pubkey.
            Clean-lift (first_of_values all_creds) _ n λ creds.
              Clean-last (register_validator core pubkey (core.hex_to_hash creds) n) n _
                (Clean-register_validator pubkey (core.hex_to_hash creds) n)

  Clean-commit_block : (r : Request) (n : Node) → Clean n (commit_block_handler core r n)
  unfolding commit_block_handler update_manager
  Clean-commit_block r n = Clean-lift (query_arg (bytes "validated") r) _ n λ values.
      Clean-lift (first_of_values values) _ n
        λ value. Clean-lift (of_number (bytes "validated") value (parse_bool value)) _ n λ b. tt

  Clean-set_highest_slot : (r : Request) (n : Node) → Clean n (set_highest_slot_handler core r n)
  unfolding set_highest_slot_handler update_manager
  Clean-set_highest_slot r n = Clean-lift (query_arg (bytes "slot") r) _ n λ values.
      Clean-lift (first_of_values values) _ n
        λ value. Clean-lift (of_number (bytes "slot") value (parse_uint 64 value)) _ n λ slot. tt

  Clean-set_balance : (r : Request) (n : Node) → Clean n (set_balance_handler core r n)
  unfolding set_balance_handler update_validator
  Clean-set_balance r n = Clean-lift (query_arg (bytes "id") r) _ n λ ids.
      Clean-lift (query_arg (bytes "balance") r) _ n λ balances.
        Clean-lift (first_of_values balances) _ n λ value.
          Clean-lift (of_number (bytes "balance") value (parse_uint 64 value)) _ n λ balance.
            Clean-lift (first_of_values ids) _ n
              λ id. Clean-find_validator id _ n λ found. Clean-lift (not_nil found) _ n λ p. tt

  Clean-set_status : (r : Request) (n : Node) → Clean n (set_status_handler core r n)
  unfolding set_status_handler update_validator
  Clean-set_status r n = Clean-lift (query_arg (bytes "id") r) _ n λ ids.
      Clean-lift (query_arg (bytes "status") r) _ n λ statuses.
        Clean-lift (first_of_values statuses) _ n λ status. Clean-lift (not_empty status) _ n λ _.
          Clean-lift (first_of_values ids) _ n
            λ id. Clean-find_validator id _ n λ found. Clean-lift (not_nil found) _ n λ p. tt

  Clean-slash : (r : Request) (n : Node) → Clean n (slash_handler core r n)
  unfolding slash_handler
  Clean-slash r n = Clean-lift (query_arg (bytes "id") r) _ n λ ids.
      Clean-lift (query_arg (bytes "penalty") r) _ n λ penalties.
        Clean-lift (first_of_values penalties) _ n λ value.
          Clean-lift (of_number (bytes "penalty") value (parse_uint 64 value)) _ n λ penalty.
            Clean-lift (first_of_values ids) _ n λ id. Clean-find_validator id _ n λ found.
              Clean-lift (not_nil found) _ n λ p.
                Clean-last (slash_validator core penalty p n) n _
                  (Clean-slash_validator penalty p n)

module _ (core : Packages) (json : Json) where
  respond-refused :
      (a : Action (Option Message)) (n : Node)
      → Clean n (a n)
      → IsRefusal (respond json a n).0
      → (respond json a n).1 ≡ n
  unfolding respond
  respond-refused a n c i = Clean-finish json (a n).0 n (a n).1 c i

  only_get-refused :
      (r : Request) (a : Action (Option Message)) (n : Node)
      → Clean n (a n)
      → IsRefusal (only_get r.method json a n).0
      → (only_get r.method json a n).1 ≡ n
  only_get-refused r a n c = by_method r.method
    where
      by_method : (m : Method) → IsRefusal (only_get m json a n).0 → (only_get m json a n).1 ≡ n
      by_method get = unfold only_get in respond-refused a n c
      by_method post = unfold only_get in λ i. refl
      by_method (other t) = unfold only_get in λ i. refl

  -- A request that is refused changes nothing on the node: where the handler panics, or its first
  -- write has the status 400 or 405, the node is as it was.
  pub handle-refused :
      (route : Route) (r : Request) (n : Node)
      → IsRefusal (handle core json route r n).0
      → (handle core json route r n).1 ≡ n
  unfolding handle
  handle-refused add_validator_route r n i = only_get-refused r _ n (Clean-add_validator core r n) i
  handle-refused commit_block_route r n i = only_get-refused r _ n (Clean-commit_block core r n) i
  handle-refused set_balance_route r n i = only_get-refused r _ n (Clean-set_balance core r n) i
  handle-refused set_status_route r n i = only_get-refused r _ n (Clean-set_status core r n) i
  handle-refused slash_route r n i = only_get-refused r _ n (Clean-slash core r n) i
  handle-refused set_highest_slot_route r n i =
      only_get-refused r _ n (Clean-set_highest_slot core r n) i
  handle-refused validators_route r n i = handle-reads core json validators_route r n tt
  handle-refused validator_route r n i = handle-reads core json validator_route r n tt
  handle-refused syncing_route r n i = handle-reads core json syncing_route r n tt
  handle-refused deposit_contract_route r n i = handle-reads core json deposit_contract_route r n tt
  handle-refused beacon_genesis_route r n i = handle-reads core json beacon_genesis_route r n tt
  handle-refused config_spec_route r n i = handle-reads core json config_spec_route r n tt
  handle-refused finality_checkpoints_route r n i =
      handle-reads core json finality_checkpoints_route r n tt
  handle-refused pending_deposits_route r n i = handle-reads core json pending_deposits_route r n tt
