-- ===== src/Beacon/Server/Effects.antt =====
-- What the administrative requests of beacon/server/ do, from the query to the objects.
use osha.Base.{
  ℕ, ◌^◌, ◌<◌, ◌≡◌, ◌⊎◌, inl, inr, ◌∙◌, refl, [], ◌∷◌, Option, none, some, Text, bytes, text_eq,
  lookup, length, Outcome, ok, fail, u64_mod,
}
use osha.Go.Strconv.{parse_uint, format_uint, parse_uint-format_uint}
use osha.Beacon.External.{Packages}
use osha.Beacon.Validator.{Validator, not_slashable, set_balance, slash}
use osha.Beacon.Validator.Slashing.{slash_total}
use osha.Beacon.Heap.{modify}
use osha.Beacon.Database.View.{IsValid}
use osha.Beacon.Manager
use osha.Beacon.Manager.Lookup.{get_validator-format_uint}
use osha.Beacon.Server.{
  Request, get, Method, Message, Json, Node, Action, ◌>>=◌, lift, pure, continue, query_arg,
  Response, ServerError, slash_error, wrote, finish, handle_success, handle_input_error,
}
use osha.Beacon.Server.Handlers.{
  find_validator, of_number, update_validator, slash_validator, set_balance_handler, slash_handler,
}
use osha.Beacon.Server.Routes.{set_balance_route, slash_route, handle, only_get, respond}

-- The answer to an administrative request that succeeds.
abbrev pub done : Response
done = wrote (record { status = 200; body = [] } ∷ [])

-- The query of the request has this one value for the key.
abbrev pub Asks : Text → Text → Request → Type 0
Asks key value r = lookup key r.query ≡ some (value ∷ [])

-- A handler goes on with the value of a step that returns one.
lift_ok :
    {A B : Type 0} {r : Outcome ServerError A} (a : A) (f : A → Action B) (n : Node)
    → r ≡ ok a
    → (lift r >>= f) n ≡ f a n
lift_ok a f n e = rw e

asked : (key value : Text) (r : Request) → Asks key value r → query_arg key r ≡ ok (value ∷ [])
asked key value r e = rw (e, query_arg)

number :
    (name : Text) (k : ℕ)
    → k < u64_mod
    → of_number name (format_uint k) (parse_uint 64 (format_uint k)) ≡ ok k
number name k lt = rw (parse_uint-format_uint 64 k lt lt)

find_ok :
    {B : Type 0} (core : Packages) (id : Text) (o : Option ℕ) (f : Option ℕ → Action B) (n : Node)
    → Manager.get_validator core id n.manager ≡ ok o
    → (find_validator core id >>= f) n ≡ f o n
unfolding find_validator
find_ok core id o f n e = rw e

got :
    (json : Json) (m : Method) (a : Action (Option Message)) (n : Node)
    → m ≡ get
    → only_get m json a n ≡ respond json a n
unfolding only_get
got json m a n e = rw e

responded :
    (json : Json) (a : Action (Option Message)) (n n' : Node)
    (o : Outcome ServerError (Option Message))
    → a n ≡ (o, n')
    → respond json a n ≡ (finish json o, n')
unfolding respond
responded json a n n' o e = rw e

module _ (core : Packages) (json : Json) (i : ℕ) (r : Request) (n : Node) where
  balance_set :
      (balance p : ℕ)
      → Asks (bytes "id") (format_uint i) r
      → Asks (bytes "balance") (format_uint balance) r
      → balance < u64_mod
      → Manager.get_validator core (format_uint i) n.manager ≡ ok (some p)
      → set_balance_handler core r n
        ≡ (ok none, record n { heap = modify p (set_balance balance) n.heap })
  unfolding set_balance_handler update_validator
  balance_set balance p id value fits e =
      lift_ok (format_uint i ∷ []) _ n (asked (bytes "id") (format_uint i) r id)
      ∙ lift_ok (format_uint balance ∷ []) _ n
          (asked (bytes "balance") (format_uint balance) r value)
      ∙ lift_ok balance _ n (number (bytes "balance") balance fits)
      ∙ find_ok core (format_uint i) (some p) _ n e

  slashed :
      (penalty p : ℕ)
      → Asks (bytes "id") (format_uint i) r
      → Asks (bytes "penalty") (format_uint penalty) r
      → penalty < u64_mod
      → Manager.get_validator core (format_uint i) n.manager ≡ ok (some p)
      → slash_handler core r n
        ≡ continue
            (slash_validator core penalty p n).0
            (λ _. pure none)
            (slash_validator core penalty p n).1
  unfolding slash_handler
  slashed penalty p id value fits e =
      lift_ok (format_uint i ∷ []) _ n (asked (bytes "id") (format_uint i) r id)
      ∙ lift_ok (format_uint penalty ∷ []) _ n
          (asked (bytes "penalty") (format_uint penalty) r value)
      ∙ lift_ok penalty _ n (number (bytes "penalty") penalty fits)
      ∙ find_ok core (format_uint i) (some p) _ n e

  -- A GET request to set the balance of a registered validator, with its decimal index (under 2^32)
  -- and the decimal balance (under 2^64), is answered with the status 200 and an empty body, and
  -- does `set_balance` on the validator that has the index, and nothing else.
  pub set_balance_request :
      (balance : ℕ)
      → 10 < core.validator_pubkey_length
      → IsValid n.manager.database n.heap
      → i < length n.manager.database.validators
      → i < 2 ^ 32
      → balance < u64_mod
      → r.method ≡ get
      → Asks (bytes "id") (format_uint i) r
      → Asks (bytes "balance") (format_uint balance) r
      → (p : ℕ) × ((n.heap.validator p).index ≡ i)
        × (handle core json set_balance_route r n
            ≡ (done, record n { heap = modify p (set_balance balance) n.heap }))
  unfolding handle
  set_balance_request balance long v lt small fits is_get id value =
      let (p, e, ix) = get_validator-format_uint core i n.manager n.heap long v lt small in
      (
        p,
        ix,
        got json r.method (set_balance_handler core r) n is_get
            ∙ responded json (set_balance_handler core r) n _ (ok none)
                (balance_set balance p id value fits e)
            ∙ unfold finish in unfold handle_success in refl,
      )

  slash_answer :
      (penalty p : ℕ)
      → slash_handler core r n
        ≡ continue
            (slash_validator core penalty p n).0
            (λ _. pure none)
            (slash_validator core penalty p n).1
      → r.method ≡ get
      → let v = n.heap.validator p in
        ((w : Validator) × (slash core penalty v ≡ ok w)
          × (handle core json slash_route r n
              ≡ (done, record n { heap = modify p (λ _. w) n.heap })))
        ⊎ ((slash core penalty v ≡ fail (not_slashable v.pubkey))
            × (handle core json slash_route r n
                ≡ (wrote (handle_input_error json (slash_error (not_slashable v.pubkey))), n)))
  unfolding handle slash_validator finish handle_success
  slash_answer penalty p e is_get = elim (slash_total core penalty (n.heap.validator p)) [
    | inl (_, f) ↦ inr (
      f,
      got json r.method (slash_handler core r) n is_get
          ∙ responded json (slash_handler core r) n n (fail (slash_error _))
              (e ∙ rw (f, slash_validator)),
    )
    | inr (_, (w, f, _, _)) ↦ inl (
      w,
      f,
      got json r.method (slash_handler core r) n is_get
          ∙ responded json (slash_handler core r) n _ (ok none) (e ∙ rw (f, slash_validator)),
    )
  ]

  -- A GET request to slash a registered validator, with its decimal index (under 2^32) and a decimal
  -- penalty (under 2^64): if `slash` returns the slashed validator, the answer has the status 200 and
  -- an empty body, and the validator that has the index becomes it; if `slash` refuses the
  -- validator, the answer is the error 400 that names its public key, and nothing changes. There is
  -- no third case.
  pub slash_request :
      (penalty : ℕ)
      → 10 < core.validator_pubkey_length
      → IsValid n.manager.database n.heap
      → i < length n.manager.database.validators
      → i < 2 ^ 32
      → penalty < u64_mod
      → r.method ≡ get
      → Asks (bytes "id") (format_uint i) r
      → Asks (bytes "penalty") (format_uint penalty) r
      → (p : ℕ) × ((n.heap.validator p).index ≡ i)
        × (let v = n.heap.validator p in
            ((w : Validator) × (slash core penalty v ≡ ok w)
              × (handle core json slash_route r n
                  ≡ (done, record n { heap = modify p (λ _. w) n.heap })))
            ⊎ ((slash core penalty v ≡ fail (not_slashable v.pubkey))
                × (handle core json slash_route r n
                    ≡ (wrote (handle_input_error json (slash_error (not_slashable v.pubkey))), n))))
  slash_request penalty long v lt small fits is_get id value =
      let (p, e, ix) = get_validator-format_uint core i n.manager n.heap long v lt small in
      (p, ix, slash_answer penalty p (slashed penalty p id value fits e) is_get)
