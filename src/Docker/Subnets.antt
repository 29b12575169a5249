-- ===== src/Docker/Subnets.antt =====
-- The pool of subnets of docker/state.go: no subnet is lost, and no two networks share one.
pub mod Pool
pub mod Steps
pub mod Services
pub mod Commands
pub mod Clones
use osha.Base.{
  ℕ, zero, suc, ltb, ◌+◌, ◌≤◌, ◌<◌, ◌≡◌, refl, sym, subst, ap, ◌∙◌, ◌⊎◌, inl, inr, Bool, true,
  false, ◌&&◌, List, [], ◌∷◌, ◌++◌, Option, none, some, Text, text_eq, text_beq, text_beq_iff, Dict,
  lookup, insert, delete, lookup-empty, lookup-insert, lookup-delete, count, count-append, arith,
  nat_beq, leb, if◌then◌else◌, Outcome, ok, fail, panic, ◌>>=◌, Option-cases, Bool-cases,
  Outcome-cases, ◌==◌,
}
use osha.Docker.Objects.{Container, Volume, Network}
use osha.Docker.{State, DockerError, new_state}
use osha.Docker.Client.{
  Engine, EngineState, find_container, disconnect, container_remove, with_engine, container_start,
  container_restart, container_stop, network_remove, give_back, volume_remove, mock_add_container,
  mock_add_volume, mock_set_container_disk_usage, mock_set_volume_disk_usage,
}
use osha.Docker.Compose.Types.{NetworkConfig, VolumeConfig}
use osha.Docker.Generation.{generate_network, generate_volume}
use osha.Docker.Subnets.Pool.{
  values, IsUnique, held, count-insert, count-delete, IsUnique-insert, IsUnique-delete, one_key,
}

-- The subnets of Docker's bridges.
abbrev pub is_bridge : ℕ → Bool
is_bridge i = leb 17 i && ltb i 32

-- Each subnet is available or used by one network, once; a name without a network uses none.
pub record IsPool (s : State) : Type 0 where
  pub each :
      (i : ℕ)
      → count i s.available_subnets + count i (values s.used_subnets)
        ≡ (if is_bridge i then 1 else 0)
  pub unique : IsUnique s.used_subnets
  pub owned : (name : Text) → lookup name s.networks ≡ none → lookup name s.used_subnets ≡ none

add_zero : (n : ℕ) → n + 0 ≡ n
add_zero n = omega arith

abbrev range : ℕ → ℕ → List ℕ
range lo zero = []
range lo (suc n) = lo ∷ range (suc lo) n

count-range : (i lo n : ℕ) → count i (range lo n) ≡ (if leb lo i && ltb i (lo + n) then 1 else 0)
count-range i lo zero = ground arith
count-range i lo (suc n) = ground (arith, count-range i (suc lo) n)

pub new_state-IsPool : IsPool new_state
unfolding new_state
new_state-IsPool = record {
  each = λ i. add_zero _ ∙ count-range i 17 15;
  unique = tt;
  owned = λ name e. lookup-empty name;
}

-- A condition on the state that an outcome holds, if it holds one.
abbrev pub OnOk : (State → Type 0) → Outcome DockerError State → Type 0
OnOk P (ok s) = P s
OnOk P (fail e) = Unit {0}
OnOk P panic = Unit {0}

pub OnOk-bind :
    {A : Type 0} (P : State → Type 0) (r : Outcome DockerError A)
    (f : A → Outcome DockerError State)
    → ((a : A) → OnOk P (f a))
    → OnOk P (r >>= f)
OnOk-bind P (ok a) f h = h a
OnOk-bind P (fail e) f h = tt
OnOk-bind P panic f h = tt

pub list_cases : {A : Type 0} (xs : List A) → (xs ≡ []) ⊎ ((x : A) × (ys : List A) × (xs ≡ x ∷ ys))
list_cases [] = inl refl
list_cases (x ∷ xs) = inr (x, xs, refl)

given_back : (i : ℕ) (o : Option ℕ) (l : List ℕ) → count i (give_back o l) ≡ count i l + held i o
unfolding give_back
given_back i none l = omega arith
given_back i (some v) l = omega (arith, count-append i l (v ∷ []))

not_deleted :
    {V W : Type 0} (k j : Text) (m : Dict Text V) (m' : Dict Text W)
    → (lookup j m ≡ none → lookup j m' ≡ none)
    → lookup j (delete k m) ≡ none
    → lookup j (delete k m') ≡ none
not_deleted k j m m' f e = elim (Bool-cases (text_beq k j)) [
  | inl hit ↦ rw (lookup-delete k j m', hit)
  | inr miss ↦ rw (lookup-delete k j m', miss) (f (sym (lookup-delete k j m ∙ rw miss) ∙ e))
]

pub not_inserted :
    {V : Type 0} (k j : Text) (v : V) (m : Dict Text V)
    → lookup j (insert k v m) ≡ none
    → (text_beq k j ≡ false) × (lookup j m ≡ none)
not_inserted k j v m e =
    let e' = sym (lookup-insert k j v m) ∙ e in
    elim (Bool-cases (text_beq k j)) [
      | inl hit ↦ ground (arith, e')
      | inr miss ↦ (miss, ground (arith, e'))
    ]

-- The state after the network and its subnet are given up.
removed_IsPool :
    (name : Text) (s : State)
    → IsPool s
    → IsPool (record s {
      available_subnets = give_back (lookup name s.used_subnets) s.available_subnets;
      networks = delete name s.networks;
      used_subnets = delete name s.used_subnets;
    })
removed_IsPool name s v = record {
  each = λ i. omega (
    arith,
    v.each i,
    given_back i (lookup name s.used_subnets) s.available_subnets,
    count-delete i name s.used_subnets v.unique,
  );
  unique = IsUnique-delete name s.used_subnets v.unique;
  owned = λ other e. not_deleted name other s.networks s.used_subnets (v.owned other) e;
}

pub network_remove-IsPool :
    (name : Text) (s : State) → IsPool s → OnOk IsPool (network_remove name s)
unfolding network_remove
network_remove-IsPool name s v = elim (Option-cases (lookup name s.networks)) [
  | inl e ↦ rw (e, network_remove) tt
  | inr (n, e) ↦ elim (list_cases n.containers) [
    | inl none_left ↦ rw (e, none_left, network_remove) (removed_IsPool name s v)
    | inr (x, xs, some_left) ↦ rw (e, some_left, network_remove) tt
  ]
]

pub generate_network-IsPool :
    (config : NetworkConfig) (name_in_yaml project id now : Text) (s : State)
    → IsPool s
    → OnOk IsPool (generate_network config name_in_yaml project id now s)
unfolding generate_network
generate_network-IsPool config name_in_yaml project id now s v =
    elim (Option-cases (lookup config.name s.networks)) [
      | inr (n, e) ↦
          rw (e, generate_network)
            (record {
              each = v.each;
              unique = v.unique;
              owned = λ name e'. v.owned name (not_inserted config.name name _ s.networks e').1;
            })
      | inl e ↦ elim (list_cases s.available_subnets) [
        | inl none_left ↦ rw (e, none_left, generate_network) tt
        | inr (subnet, rest, some_left) ↦
            rw (e, some_left, generate_network)
              (record {
                each = λ i.
                    let w : count i (subnet ∷ rest) + count i (values s.used_subnets)
                        ≡ (if is_bridge i then 1 else 0) =
                      subst
                        (λ l.
                          count i l + count i (values s.used_subnets)
                          ≡ (if is_bridge i then 1 else 0))
                        some_left (v.each i) in
                    omega (
                      arith,
                      w,
                      count-insert i subnet config.name s.used_subnets (v.owned config.name e),
                    );
                unique = IsUnique-insert config.name subnet s.used_subnets v.unique;
                owned = λ name e'.
                    let (miss, gone) = not_inserted config.name name _ s.networks e' in
                    rw (lookup-insert config.name name subnet s.used_subnets, miss)
                      (v.owned name gone);
              })
      ]
    ]
