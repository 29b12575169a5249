-- ===== src/Beacon/Server.antt =====
-- beacon/server/server.go and response-handling.go: requests, responses and the steps of a handler.
-- net/http and gorilla/mux are not under the repository: a request arrives with its query, its path
-- variables and its body taken apart, and a response is the sequence of writes that reach the
-- client. The content type and the log are not modelled, and an error's text is the value that
-- `fmt.Errorf` formats.
pub mod Ids
pub mod Splitting
pub mod Handlers
pub mod Routes
pub mod Reading
pub mod Refusals
pub mod Effects
use osha.Base.{
  ℕ, Bool, true, false, List, [], ◌∷◌, ◌++◌, Option, none, some, Dict, lookup, Text, text_eq,
  Outcome, ok, fail, panic,
}
use osha.Beacon.Heap.{Heap}
use osha.Beacon.Validator.{SlashError}
use osha.Beacon.Database.{DatabaseError}
use osha.Beacon.Manager.{BeaconMockManager, ManagerError}
use osha.Beacon.Format.{ValidatorMeta, PendingDeposit}
use osha.Beacon.Provider.{FinalityCheckpoints, Genesis, DepositContract, Eth2Config, SyncStatus}

pub data Method : Type 0 where
  get post : Method
  other : Text → Method

-- `body` is `none` where reading it fails.
pub record Request : Type 0 where
  pub method : Method
  pub query : Dict Text (List Text)
  pub vars : Dict Text Text
  pub body : Option Text

pub data ServerError : Type 0 where
  missing : Text → ServerError
  invalid : Text → Text → ServerError
  unreadable_body malformed_body unserializable : ServerError
  manager_error : ManagerError → ServerError
  database_error : DatabaseError → ServerError
  slash_error : SlashError → ServerError

-- The values that are serialized: the responses of beacon/api/responses.go and of the provider.
pub data Message : Type 0 where
  error_response : ℕ → ServerError → Message
  validator_response : ValidatorMeta → Message
  add_validator_response : ℕ → Message
  validators_response : List ValidatorMeta → Message
  pending_deposits_response : List PendingDeposit → Message
  finality_checkpoints_response : FinalityCheckpoints → Message
  genesis_response : Genesis → Message
  deposit_contract_response : DepositContract → Message
  config_response : Eth2Config → Message
  sync_status_response : SyncStatus → Message

-- json.Marshal, and json.Unmarshal at beacon/api/requests.go: the ids of the request.
pub record Json : Type 0 where
  pub marshal : Message → Option Text
  pub unmarshal_ids : Text → Option (List Text)

-- One call of `writeResponse`.
pub record Write : Type 0 where
  pub status : ℕ
  pub body : Text

-- What a handler comes to: its writes, or a panic in it.
pub data Response : Type 0 where
  wrote : List Write → Response
  panicked : Response

-- `bytes, _ := json.Marshal(msg)`
abbrev pub or_empty : Option Text → Text
or_empty none = []
or_empty (some t) = t

unfoldable pub format_error : Json → ℕ → ServerError → Text
format_error json code err = or_empty (json.marshal (error_response code err))

unfoldable pub handle_invalid_method : List Write
handle_invalid_method = record { status = 405; body = [] } ∷ []

unfoldable pub handle_input_error : Json → ServerError → List Write
unfolding format_error
handle_input_error json err = record { status = 400; body = format_error json 400 err } ∷ []

unfoldable pub handle_server_error : Json → ServerError → List Write
unfolding format_error
handle_server_error json err = record { status = 500; body = format_error json 500 err } ∷ []

-- Where the serialization fails, the code goes on behind `handleServerError`, and writes once more.
unfoldable pub handle_success : Json → Option Message → List Write
unfolding handle_server_error
handle_success json none = record { status = 200; body = [] } ∷ []
handle_success json (some message) = elim (json.marshal message) [
  | some bytes ↦ record { status = 200; body = bytes } ∷ []
  | none ↦ handle_server_error json unserializable ++ record { status = 200; body = [] } ∷ []
]

-- The server's manager and the objects that it points to.
pub record Node : Type 0 where
  pub manager : BeaconMockManager
  pub heap : Heap

-- The steps of a handler: each may change the node, and may end the handler.
abbrev pub Action {ℓ} : Type ℓ → Type ℓ
Action A = Node → Outcome ServerError A × Node

abbrev pub continue {ℓ} : {A B : Type ℓ} → Outcome ServerError A → (A → Action B) → Action B
continue (ok a) f n = f a n
continue (fail e) f n = (fail e, n)
continue panic f n = (panic, n)

infixl 5 ◌>>=◌
abbrev pub ◌>>=◌ {ℓ} : {A B : Type ℓ} → Action A → (A → Action B) → Action B
◌>>=◌ m f n = let (r, n') = m n in continue r f n'

abbrev pub pure {ℓ} : {A : Type ℓ} → A → Action A
pure a n = (ok a, n)

abbrev pub lift {ℓ} : {A : Type ℓ} → Outcome ServerError A → Action A
lift r n = (r, n)

-- `values, exists := args[name]` and the error where it is missing.
abbrev pub query_arg : Text → Request → Outcome ServerError (List Text)
query_arg name r = elim (lookup name r.query) [
  | some values ↦ ok values
  | none ↦ fail (missing name)
]

-- `values[0]`
abbrev pub first_of_values : List Text → Outcome ServerError Text
first_of_values [] = panic
first_of_values (v ∷ _) = ok v

abbrev pub path_var : Text → Request → Outcome ServerError Text
path_var name r = elim (lookup name r.vars) [ some value ↦ ok value | none ↦ fail (missing name) ]

-- How a handler ends: `handleSuccess`, `handleInputError` or a panic.
unfoldable pub finish : Json → Outcome ServerError (Option Message) → Response
unfolding handle_success handle_input_error
finish json (ok message) = wrote (handle_success json message)
finish json (fail err) = wrote (handle_input_error json err)
finish json panic = panicked
