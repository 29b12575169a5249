-- ===== src/Docker/Networks.antt =====
-- The networks of docker/: what creating, leaving and removing them does (docker/generation.go and
-- docker/client.go).
use osha.Base.{
  ℕ, ◌≡◌, refl, sym, ◌∙◌, inl, inr, Bool, true, false, ◌&&◌, ◌||◌, subst, List, [], ◌∷◌, ◌++◌,
  Option, none, some, Text, text_eq, text_beq, text_beq_iff, Dict, lookup, insert, delete, keys,
  lookup-insert, lookup-delete, ==-refl, arith, if◌then◌else◌, ok, Option-cases, Bool-cases,
}
use osha.Docker.Objects.{Container, Endpoint, Network, NetworkSettings}
use osha.Docker.{State}
use osha.Docker.Client.{disconnect, find_container, container_remove, network_remove, give_back}
use osha.Docker.Compose.Types.{NetworkConfig}
use osha.Docker.Generation.{generate_network, new_network}

abbrev pub listed : Text → List Text → Bool
listed name [] = false
listed name (other ∷ names) = text_beq other name || listed name names

-- The endpoint of a container in a network, where there is the network and the endpoint.
abbrev pub in_network : Text → Option Network → Option Endpoint
in_network id none = none
in_network id (some n) = lookup id n.containers

module _ (id x name : Text) where
  round_hit :
      (n : Network) (other : Text) (networks : Dict Text Network)
      → lookup other networks ≡ some n
      → text_beq other name ≡ true
      → in_network x
          (lookup name (insert other (record n { containers = delete id n.containers }) networks))
        ≡ (if text_beq id x then none else in_network x (lookup name networks))
  round_hit n other networks e hit =
      let here : lookup name networks ≡ some n =
        subst (λ l. lookup l networks ≡ some n) ((text_beq_iff other name).0 hit) e in
      rw (
        lookup-insert other name (record n { containers = delete id n.containers }) networks,
        hit,
        lookup-delete id x n.containers,
        here,
      )

  round_miss :
      (n : Network) (other : Text) (networks : Dict Text Network)
      → text_beq other name ≡ false
      → in_network x (lookup name (insert other n networks)) ≡ in_network x (lookup name networks)
  round_miss n other networks miss = rw (lookup-insert other name n networks, miss)

  absent :
      (other : Text) (networks : Dict Text Network)
      → lookup other networks ≡ none
      → text_beq other name ≡ true
      → in_network x (lookup name networks) ≡ none
  absent other networks e hit =
      let here : lookup name networks ≡ none =
        subst (λ l. lookup l networks ≡ none) ((text_beq_iff other name).0 hit) e in
      rw here

  -- The loop of `ContainerRemove` takes the container out of the networks of its list.
  disconnected :
      (names : List Text) (networks : Dict Text Network)
      → in_network x (lookup name (disconnect id names networks))
        ≡ (if listed name names && text_beq id x then none else in_network x (lookup name networks))
  unfolding disconnect
  disconnected [] networks = refl
  disconnected (other ∷ names) networks = elim (Option-cases (lookup other networks)) [
    | inl e ↦
        rw (e, disconnect)
          (elim (Bool-cases (text_beq other name)) [
            | inl hit ↦
                disconnected names networks ∙ rw (hit, absent other networks e hit) (ground arith)
            | inr miss ↦ rw miss (disconnected names networks)
          ])
    | inr (n, e) ↦
        rw (e, disconnect)
          (disconnected names _ ∙ elim (Bool-cases (text_beq other name)) [
            | inl hit ↦ rw (hit, round_hit n other networks e hit) (ground arith)
            | inr miss ↦ rw (miss, round_miss _ other networks miss)
          ])
  ]

-- Removing a container that is there and has network settings succeeds: its name is free then, the
-- other containers are as they were, it has no endpoint left in the networks that it lists, and every
-- other endpoint of every network is as it was.
pub container_remove_lem :
    (name : Text) (c : Container) (settings : NetworkSettings) (s : State)
    → lookup name s.containers ≡ some c
    → c.network_settings ≡ some settings
    → (s' : State) × (container_remove name s ≡ ok s')
      × ((other : Text)
          → lookup other s'.containers
            ≡ (if text_beq name other then none else lookup other s.containers))
      × ((id network : Text)
          → in_network id (lookup network s'.networks) ≡ (
              if listed network (keys settings.networks) && text_beq c.id id
              then none
              else in_network id (lookup network s.networks)))
unfolding container_remove find_container
container_remove_lem name c settings s e f = (
  record s {
    containers = delete name s.containers;
    networks = disconnect c.id (keys settings.networks) s.networks;
  },
  rw (e, f, container_remove, find_container),
  λ other. lookup-delete name other s.containers,
  λ id network. disconnected c.id id network (keys settings.networks) s.networks,
)

undone :
    {V : Type 0} (k j : Text) (v : V) (m : Dict Text V)
    → lookup k m ≡ none
    → lookup j (delete k (insert k v m)) ≡ lookup j m
undone k j v m free = elim (Bool-cases (text_beq k j)) [
  | inl hit ↦
      rw (lookup-delete k j (insert k v m), hit)
        (sym (subst (λ l. lookup l m ≡ none) ((text_beq_iff k j).0 hit) free))
  | inr miss ↦ rw (lookup-delete k j (insert k v m), miss, lookup-insert k j v m, miss)
]

-- A network that was just created, under a name that had neither a network nor a subnet, can be
-- removed. Then every name has the network and the subnet that it had before, and the subnet that
-- the network took from the front of the available ones is at their end.
pub network_remove-generate_network :
    (config : NetworkConfig) (name_in_yaml project id now : Text) (subnet : ℕ) (rest : List ℕ)
    (s : State)
    → lookup config.name s.networks ≡ none
    → lookup config.name s.used_subnets ≡ none
    → s.available_subnets ≡ subnet ∷ rest
    → (made removed : State) × (generate_network config name_in_yaml project id now s ≡ ok made)
      × (network_remove config.name made ≡ ok removed)
      × (removed.available_subnets ≡ rest ++ subnet ∷ [])
      × ((name : Text) → lookup name removed.networks ≡ lookup name s.networks)
      × ((name : Text) → lookup name removed.used_subnets ≡ lookup name s.used_subnets)
unfolding generate_network network_remove new_network give_back
network_remove-generate_network config name_in_yaml project id now subnet rest s free unused first =
    let network = new_network config name_in_yaml project subnet id now in
    let networks = insert config.name network s.networks in
    let used = insert config.name subnet s.used_subnets in
    let made : State = record s {
      available_subnets = rest;
      used_subnets = used;
      networks = networks;
      network_indices = insert name_in_yaml 2 s.network_indices;
    } in
    (
      made,
      record made {
        available_subnets = rest ++ subnet ∷ [];
        networks = delete config.name networks;
        used_subnets = delete config.name used;
      },
      rw (free, first, generate_network),
      rw (
        lookup-insert config.name config.name network s.networks,
        ==-refl config.name,
        network_remove,
        lookup-insert config.name config.name subnet s.used_subnets,
        ==-refl config.name,
      ),
      refl,
      λ name. undone config.name name network s.networks free,
      λ name. undone config.name name subnet s.used_subnets unused,
    )
