-- ===== src/Docker/Generation/Joining.antt =====
-- The loop over the networks of a service in `generateService` of docker/generation.go: what a round
-- that succeeds has computed.
use osha.Base.{
  ◌+◌, ◌%◌, or_zero, ◌≡◌, refl, sym, ◌∙◌, ap, subst, inl, inr, [], ◌∷◌, Option, none, some, Text,
  text_eq, Dict, lookup, insert, Outcome, ok, fail, panic, text_beq, arith, Bool-cases,
  Option-cases,
}
use osha.Go.Hex.{encode_to_string}
use osha.Docker.{State, DockerError}
use osha.Docker.Compose.Types.{NetworkConfig, ServiceConfig, ServiceNetworkConfig}
use osha.Docker.Generation.Services.{
  project_network, add_dns_names, enter_networks, make_endpoint, join_network, join_networks,
}
use osha.Docker.Generation.Settings.{Packages}
use osha.Docker.Generation.World.{World, Sources, Action, ◌>>=◌, create_random_id}
use osha.Docker.Subnets.Pool.{IsUnique, IsUnique-insert}
use osha.Docker.Objects.{EndpointSettings, Network}

-- The first of two actions that succeed together has succeeded.
pub bind-ok :
    {A B : Type 0} (m : Action A) (f : A → Action B) (w w' : World) {b : B}
    → (m >>= f) w ≡ (ok b, w')
    → (a : A) × ((m w).0 ≡ ok a) × (f a (m w).1 ≡ (ok b, w'))
bind-ok {A} {B} m f w w' {b} = go (m w).0 (m w).1
  where
    go :
        (r : Outcome DockerError A) (v : World)
        → ((λ (_ : World). (r, v)) >>= f) w ≡ (ok b, w')
        → (a : A) × (r ≡ ok a) × (f a v ≡ (ok b, w'))
    go (ok a) v e = (a, refl, e)
    go (fail x) v e = absurd (cc)
    go panic v e = absurd (cc)

-- The DNS names of an endpoint play no part in its entry in a network.
pub enter_networks-dns :
    (id name hostname : Text) (m : Dict Text EndpointSettings) (networks : Dict Text Network)
    → enter_networks id name (add_dns_names hostname m) networks ≡ enter_networks id name m networks
unfolding enter_networks add_dns_names
enter_networks-dns id name hostname [] networks = refl
enter_networks-dns id name hostname ((net_name, e) ∷ m) networks =
    elim (Option-cases (lookup net_name networks)) [
      | inl f ↦ rw (f, enter_networks)
      | inr (n, f) ↦ rw (f, enter_networks) (enter_networks-dns id name hostname m _)
    ]

lookup-dns :
    (hostname key : Text) (m : Dict Text EndpointSettings)
    → lookup key m ≡ none
    → lookup key (add_dns_names hostname m) ≡ none
unfolding lookup add_dns_names
lookup-dns hostname key [] e = refl
lookup-dns hostname key ((name, x) ∷ m) e = elim (Bool-cases (text_beq name key)) [
  | inl hit ↦ ground (arith, e)
  | inr miss ↦ rw (miss, lookup) (lookup-dns hostname key m (ground (arith, e)))
]

pub IsUnique-dns :
    (hostname : Text) (m : Dict Text EndpointSettings)
    → IsUnique m
    → IsUnique (add_dns_names hostname m)
unfolding add_dns_names
IsUnique-dns hostname [] u = tt
IsUnique-dns hostname ((name, x) ∷ m) u =
    (lookup-dns hostname name m u.0, IsUnique-dns hostname m u.1)

module _ {Time : Type 0} (packages : Packages Time) (sources : Sources Time) where
  -- A network that was joined is there; its endpoint has the next index, which moves on.
  pub join_network-ok :
      (service : ServiceConfig) (project_networks : Dict Text NetworkConfig) (name_in_yaml : Text)
      (config : Option ServiceNetworkConfig) (networks : Dict Text EndpointSettings) (w : World)
      {all : Dict Text EndpointSettings} {w' : World}
      → join_network packages sources service project_networks name_in_yaml config networks w
        ≡ (ok all, w')
      → let name = (project_network project_networks name_in_yaml).name in
        let index = or_zero 0 (lookup name_in_yaml w.state.network_indices) in
        let subnet = or_zero 0 (lookup name w.state.used_subnets) in
        (n : Network) × (id : Text) × (lookup name w.state.networks ≡ some n)
        × (all ≡ insert name (make_endpoint service config n subnet index id) networks)
        × (w'.state ≡ record w.state {
          network_indices = insert name_in_yaml ((index + 1) % 256) w.state.network_indices;
        })
  unfolding join_network create_random_id
  join_network-ok service project_networks name_in_yaml config networks w {all} {w'} =
      elim (Option-cases
        (lookup (project_network project_networks name_in_yaml).name w.state.networks)) [
          | inl f ↦ rw f (λ e. absurd (cc))
          | inr (n, f) ↦ rw f (λ e.
              let value =
                ap (λ (p : Outcome DockerError (Dict Text EndpointSettings) × World). p.0) e in
              (
                n,
                encode_to_string (sources.random w.draws),
                refl,
                cc value,
                ap (λ (p : Outcome DockerError (Dict Text EndpointSettings) × World). p.1.state)
                    (sym e),
              ))
        ]

  -- Joining networks changes only the indices, and gives each network once.
  pub joined :
      (service : ServiceConfig) (project_networks : Dict Text NetworkConfig)
      (m : Dict Text (Option ServiceNetworkConfig)) (networks : Dict Text EndpointSettings)
      (w : World) {all : Dict Text EndpointSettings} {w' : World}
      → join_networks packages sources service project_networks m networks w ≡ (ok all, w')
      → IsUnique networks
      → (w'.state ≡ record w.state { network_indices = w'.state.network_indices }) × IsUnique all
  unfolding join_networks
  joined service project_networks [] networks w {all} {w'} e u =
      let value = ap (λ (p : Outcome DockerError (Dict Text EndpointSettings) × World). p.0) e in
      let same : networks ≡ all = cc value in
      let kept : w ≡ w' =
        ap (λ (p : Outcome DockerError (Dict Text EndpointSettings) × World). p.1) e in
      (
        subst
            (λ (v : World). v.state ≡ record w.state { network_indices = v.state.network_indices })
            kept refl,
        subst IsUnique same u,
      )
  joined service project_networks ((name, config) ∷ m) networks w {all} {w'} e u =
      let step = join_network packages sources service project_networks name config networks w in
      let (first, done, rest) =
        bind-ok (join_network packages sources service project_networks name config networks)
          (join_networks packages sources service project_networks m) w w' e in
      let (n, id, there, adds, moves) =
        join_network-ok service project_networks name config networks w (λ i. (done i, step.1)) in
      let (keeps, unique) =
        joined service project_networks m first _ rest
          (subst IsUnique (sym adds) (IsUnique-insert _ _ networks u)) in
      (
        keeps ∙ ap (λ (s : State). record s { network_indices = w'.state.network_indices }) moves,
        unique,
      )
