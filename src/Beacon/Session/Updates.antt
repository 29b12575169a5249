-- ===== src/Beacon/Session/Updates.antt =====
-- The handlers of beacon/server/ that change the node: each is one step.
use osha.Base.{
  ℕ, text_eq, ◌≡◌, refl, inl, inr, Option, none, some, Text, text_beq, Outcome, ok, fail, panic,
  arith, bytes, Outcome-cases, Bool-cases, Option-cases,
}
use osha.Go.Strconv.{parse_uint, parse_bool}
use osha.Beacon.External.{Packages}
use osha.Beacon.Validator.{Validator, set_balance, set_status, slash, punish}
use osha.Beacon.Heap.{modify}
use osha.Beacon.Database.View.{IsValid}
use osha.Beacon.Database.Updates.{
  KeepsKeys, set_balance-KeepsKeys, set_status-KeepsKeys, punish-KeepsKeys,
}
use osha.Beacon.Manager
use osha.Beacon.Manager.{ManagerError}
use osha.Beacon.Server.{
  Request, ServerError, Message, Node, Action, ◌>>=◌, pure, lift, query_arg, continue,
  first_of_values,
}
use osha.Beacon.Server.Handlers.{
  register_validator, find_validator, update_validator, slash_validator, add_validator_handler,
  commit_block_handler, set_balance_handler, set_status_handler, slash_handler,
  set_highest_slot_handler, not_nil, not_empty, of_number, parse_pubkey,
}
use osha.Beacon.Session.Steps.{
  In, In-by_index, In-by_pubkey, Step, stay, commit, raise, register, change,
}

module _ (core : Packages) where
  pub lift-Step :
      {A B : Type 0} (r : Outcome ServerError A) (f : A → Action B) (n : Node)
      → ((a : A) → Step core n (f a n).1)
      → Step core n ((lift r >>= f) n).1
  lift-Step (ok a) f n h = h a
  lift-Step (fail e) f n h = stay
  lift-Step panic f n h = stay

  -- A pointer that `get_validator` finds is one of the current database.
  In-get_validator :
      (id : Text) (n : Node) (p : ℕ)
      → IsValid n.manager.database n.heap
      → Manager.get_validator core id n.manager ≡ ok (some p)
      → In p n.manager.database.validators
  unfolding Manager.get_validator
  In-get_validator id n p v e = elim (Bool-cases (Manager.is_pubkey core id)) [
    | inl key ↦ elim (Option-cases (core.hex_to_validator_pubkey id)) [
      | inl bad ↦ ground arith
      | inr (k, good) ↦ In-by_pubkey k p n.manager.database n.heap v (ground arith)
    ]
    | inr index ↦ elim (Outcome-cases (parse_uint 32 id)) [
      | inl (i, good) ↦ In-by_index i p n.manager.database (ground arith)
      | inr (inl (x, bad)) ↦ ground arith
      | inr (inr bad) ↦ ground arith
    ]
  ]

  -- A handler that looks a validator up goes on with a pointer of the database, or with nil.
  pub find_validator-Step :
      {B : Type 0} (id : Text) (f : Option ℕ → Action B) (n : Node)
      → IsValid n.manager.database n.heap
      → ((p : ℕ) → In p n.manager.database.validators → Step core n (f (some p) n).1)
      → Step core n (f none n).1
      → Step core n ((find_validator core id >>= f) n).1
  unfolding find_validator
  find_validator-Step id f n v found missing =
      elim (Outcome-cases (Manager.get_validator core id n.manager)) [
        | inl (none, e) ↦ rw e missing
        | inl (some p, e) ↦ rw e (found p (In-get_validator id n p v e))
        | inr (inl (x, e)) ↦ rw e stay
        | inr (inr e) ↦ rw e stay
      ]

  slash_validator-Step :
      (penalty p : ℕ) (n : Node)
      → In p n.manager.database.validators
      → Step core n (slash_validator core penalty p n).1
  unfolding slash_validator slash modify
  slash_validator-Step penalty p n i =
      let v = n.heap.validator p in
      let punished : Step core n (record n { heap = modify p (punish core penalty) n.heap }) =
        change p (punish core penalty) (punish-KeepsKeys core penalty) i in
      elim (Bool-cases (text_beq v.status core.active_ongoing)) [
        | inl a ↦ rw (a, slash_validator) punished
        | inr a ↦ elim (Bool-cases (text_beq v.status core.active_exiting)) [
          | inl b ↦ rw (a, b, slash_validator) punished
          | inr b ↦ rw (a, b, slash_validator) stay
        ]
      ]

  -- What follows a registration only reads.
  register_validator-Step :
      {B : Type 0} (pubkey creds : ℕ) (f : ℕ → Action B) (n : Node)
      → ((p : ℕ) (n' : Node) → (f p n').1 ≡ n')
      → Step core n ((register_validator core pubkey creds >>= f) n).1
  unfolding register_validator
  register_validator-Step pubkey creds f n reads =
      elim (Outcome-cases (Manager.add_validator core pubkey creds n.manager n.heap).0) [
        | inl (p, e) ↦ rw (e, reads p) (register pubkey creds)
        | inr (inl (x, e)) ↦ rw e (register pubkey creds)
        | inr (inr e) ↦ rw e (register pubkey creds)
      ]

  pub add_validator-Step : (r : Request) (n : Node) → Step core n (add_validator_handler core r n).1
  unfolding add_validator_handler
  add_validator-Step r n = lift-Step (query_arg (bytes "pubkey") r) _ n λ pubkeys.
      lift-Step (query_arg (bytes "creds") r) _ n λ all_creds.
        lift-Step (first_of_values pubkeys) _ n λ key.
          lift-Step (parse_pubkey core key) _ n λ pubkey.
            lift-Step (first_of_values all_creds) _ n
              λ creds. register_validator-Step pubkey (core.hex_to_hash creds) _ n (λ p n'. refl)

  pub commit_block-Step : (r : Request) (n : Node) → Step core n (commit_block_handler core r n).1
  unfolding commit_block_handler Manager.commit_block
  commit_block-Step r n = lift-Step (query_arg (bytes "validated") r) _ n λ values.
      lift-Step (first_of_values values) _ n λ value.
        lift-Step (of_number (bytes "validated") value (parse_bool value)) _ n λ b. commit b

  pub set_highest_slot-Step :
      (r : Request) (n : Node) → Step core n (set_highest_slot_handler core r n).1
  unfolding set_highest_slot_handler Manager.set_highest_slot
  set_highest_slot-Step r n = lift-Step (query_arg (bytes "slot") r) _ n λ values.
      lift-Step (first_of_values values) _ n λ value.
        lift-Step (of_number (bytes "slot") value (parse_uint 64 value)) _ n λ slot. raise slot

  -- The end of the handlers that change a validator by a method that returns no error.
  update_found-Step :
      (id : Text) (f : Validator → Validator) (n : Node)
      → KeepsKeys f
      → IsValid n.manager.database n.heap
      → Step core n
          ((do
            found ← find_validator core id
            validator ← lift (not_nil found)
            _ ← update_validator validator f
            pure {A = Option Message} none)
            n).1
  unfolding update_validator
  update_found-Step id f n keeps v = find_validator-Step id _ n v (λ p i. change p f keeps i) stay

  pub set_balance-Step :
      (r : Request) (n : Node)
      → IsValid n.manager.database n.heap
      → Step core n (set_balance_handler core r n).1
  unfolding set_balance_handler
  set_balance-Step r n v = lift-Step (query_arg (bytes "id") r) _ n λ ids.
      lift-Step (query_arg (bytes "balance") r) _ n λ balances.
        lift-Step (first_of_values balances) _ n λ value.
          lift-Step (of_number (bytes "balance") value (parse_uint 64 value)) _ n λ balance.
            lift-Step (first_of_values ids) _ n
              λ id. update_found-Step id (set_balance balance) n (set_balance-KeepsKeys balance) v

  pub set_status-Step :
      (r : Request) (n : Node)
      → IsValid n.manager.database n.heap
      → Step core n (set_status_handler core r n).1
  unfolding set_status_handler
  set_status-Step r n v = lift-Step (query_arg (bytes "id") r) _ n λ ids.
      lift-Step (query_arg (bytes "status") r) _ n λ statuses.
        lift-Step (first_of_values statuses) _ n λ status. lift-Step (not_empty status) _ n λ _.
          lift-Step (first_of_values ids) _ n
            λ id. update_found-Step id (set_status status) n (set_status-KeepsKeys status) v

  slash_found-Step :
      (id : Text) (penalty : ℕ) (n : Node)
      → IsValid n.manager.database n.heap
      → Step core n
          ((do
            found ← find_validator core id
            validator ← lift (not_nil found)
            _ ← slash_validator core penalty validator
            pure {A = Option Message} none)
            n).1
  slash_found-Step id penalty n v =
      find_validator-Step id _ n v
        (λ p i.
          continue_read (slash_validator core penalty p n) (slash_validator-Step penalty p n i))
        stay
    where
      continue_read :
          (r : Outcome ServerError (Unit {0}) × Node)
          → Step core n r.1
          → Step core n (continue r.0 (λ _. pure {A = Option Message} none) r.1).1
      continue_read (ok _, n') s = s
      continue_read (fail _, n') s = s
      continue_read (panic, n') s = s

  pub slash-Step :
      (r : Request) (n : Node)
      → IsValid n.manager.database n.heap
      → Step core n (slash_handler core r n).1
  unfolding slash_handler
  slash-Step r n v = lift-Step (query_arg (bytes "id") r) _ n λ ids.
      lift-Step (query_arg (bytes "penalty") r) _ n λ penalties.
        lift-Step (first_of_values penalties) _ n λ value.
          lift-Step (of_number (bytes "penalty") value (parse_uint 64 value)) _ n
            λ penalty. lift-Step (first_of_values ids) _ n λ id. slash_found-Step id penalty n v
