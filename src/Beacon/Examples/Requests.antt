-- ===== src/Beacon/Examples/Requests.antt =====
-- The theorems about the requests of beacon/server/ at the small node.
use osha.Base.{
  ℕ, ◌≡◌, ◌⊎◌, ◌↔◌, inl, refl, true, [], ◌∷◌, ◌++◌, some, none, bytes, text_beq, text_eq, ok, fail,
  arith, lookup, ◌<◌, ◌≤◌, ◌+◌, ◌>>=◌,
}
use osha.Go.Strconv.{format_uint, format_digits}
use osha.Beacon.Validator.{Validator, not_slashable, set_balance, slash}
use osha.Beacon.Heap.{modify}
use osha.Beacon.Manager.{get_validator, get_validators}
use osha.Beacon.Manager.Lookup.{get_validator-format_uint, get_validators-append}
use osha.Beacon.Provider.{node_syncing}
use osha.Beacon.Provider.Syncing.{node_syncing_lem}
use osha.Beacon.Server.{Request, get, post, handle_input_error, slash_error, wrote}
use osha.Beacon.Server.Handlers.{set_status_handler}
use osha.Beacon.Server.Ids.{get_validator_ids}
use osha.Beacon.Server.Splitting.{get_validator_ids-comma}
use osha.Beacon.Server.Routes.{
  handle, set_balance_route, slash_route, validators_route, set_status_route,
}
use osha.Beacon.Server.Reading.{handle-reads}
use osha.Beacon.Server.Refusals.{handle-refused}
use osha.Beacon.Server.Effects.{done, set_balance_request, slash_request}
use osha.Beacon.Examples.{core, json, manager, heap, node, database-IsValid}

abbrev balance_query : Request
balance_query = record {
  method = get;
  query = (bytes "id", bytes "1" ∷ []) ∷ (bytes "balance", bytes "31000000000" ∷ []) ∷ [];
  vars = [];
  body = none;
}

abbrev slash_query : Request
slash_query = record {
  method = get;
  query = (bytes "id", bytes "0" ∷ []) ∷ (bytes "penalty", bytes "1000" ∷ []) ∷ [];
  vars = [];
  body = none;
}

get_validator-format_uint_example :
    (p : ℕ) × (get_validator core (format_uint 1) manager ≡ ok (some p))
    × ((heap.validator p).index ≡ 1)
get_validator-format_uint_example =
    get_validator-format_uint core 1 manager heap (omega arith) database-IsValid (omega arith)
      (omega arith)

-- The last id is no number.
get_validators-append_example :
    get_validators core (bytes "1" ∷ bytes "0x07" ∷ bytes "first" ∷ []) manager ≡ (do
      first ← get_validators core (bytes "1" ∷ bytes "0x07" ∷ []) manager
      rest ← get_validators core (bytes "first" ∷ []) manager
      ok (first ++ rest))
get_validators-append_example =
    get_validators-append core manager (bytes "1") (bytes "first") (bytes "0x07" ∷ []) []

node_syncing_lem_example :
    let status = node_syncing manager in
    (1 + status.sync_distance ≡ status.head_slot)
    × (1 ≤ status.head_slot)
    × ((status.is_syncing ≡ true) ↔ (0 < status.sync_distance))
node_syncing_lem_example = node_syncing_lem manager heap database-IsValid (omega arith)

get_validator_ids-comma_example :
    get_validator_ids (bytes "1, 0x07" ∷ bytes " " ∷ [])
    ≡ get_validator_ids (bytes "1" ∷ bytes " 0x07" ∷ bytes " " ∷ [])
get_validator_ids-comma_example =
    get_validator_ids-comma (bytes "1") (bytes " 0x07") (bytes " " ∷ [])

set_balance_request_example :
    (p : ℕ) × ((heap.validator p).index ≡ 1)
    × (handle core json set_balance_route balance_query node
        ≡ (done, record node { heap = modify p (set_balance 31_000_000_000) heap }))
unfolding format_uint format_digits lookup text_beq
set_balance_request_example =
    set_balance_request core json 1 balance_query node 31_000_000_000 (omega arith) database-IsValid
      (omega arith) (omega arith) (omega arith) refl refl refl

slash_request_example :
    (p : ℕ) × ((heap.validator p).index ≡ 0)
    × (let v = heap.validator p in
        ((w : Validator) × (slash core 1000 v ≡ ok w)
          × (handle core json slash_route slash_query node
              ≡ (done, record node { heap = modify p (λ _. w) heap })))
        ⊎ ((slash core 1000 v ≡ fail (not_slashable v.pubkey))
            × (handle core json slash_route slash_query node
                ≡ (wrote (handle_input_error json (slash_error (not_slashable v.pubkey))), node))))
unfolding format_uint format_digits lookup text_beq
slash_request_example =
    slash_request core json 0 slash_query node 1000 (omega arith) database-IsValid (omega arith)
      (omega arith) (omega arith) refl refl refl

-- A status is missing.
handle-refused_example : (handle core json set_status_route balance_query node).1 ≡ node
unfolding handle set_status_handler lookup text_beq
handle-refused_example = handle-refused core json set_status_route balance_query node (inl refl)

handle-reads_example :
    (handle core json validators_route (record balance_query { method = post }) node).1 ≡ node
handle-reads_example =
    handle-reads core json validators_route (record balance_query { method = post }) node tt
