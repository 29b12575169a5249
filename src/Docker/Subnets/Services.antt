-- ===== src/Docker/Subnets/Services.antt =====
-- The pool of subnets of docker/ through `generateService` of docker/generation.go, as far as it gets.
use osha.Base.{
  suc, ◌≡◌, inl, inr, [], ◌∷◌, Option, none, some, Text, text_eq, Dict, lookup, Outcome, ok, fail,
  panic, subst, Option-cases, Outcome-cases,
}
use osha.Docker.{State, DockerError}
use osha.Docker.Compose.Types.{NetworkConfig, VolumeConfig, ServiceConfig, ServiceNetworkConfig}
use osha.Docker.Generation.Services.{
  project_network, enter_networks, join_network, join_networks, store_container, complete_service,
  generate_service,
}
use osha.Docker.Generation.Bindings.{Parts, make_parts}
use osha.Docker.Generation.Settings.{Packages, retry_count}
use osha.Docker.Generation.World.{World, Sources, Action, update, ◌>>=◌, create_random_id, time_now}
use osha.Docker.Objects.{Container, ContainerState, EndpointSettings, Network}
use osha.Docker.Subnets.{IsPool, OnOk, not_inserted}
use osha.Docker.Subnets.Steps.{alike, renewed}

-- The pool is kept, whatever the action comes to.
abbrev pub KeepsPool : {A : Type 0} → Action A → Type 0
KeepsPool m = (w : World) → IsPool w.state → IsPool (m w).1.state

after-IsPool :
    {A B : Type 0} (f : A → Action B) (r : Outcome DockerError A) (w : World)
    → ((a : A) → KeepsPool (f a))
    → IsPool w.state
    → IsPool (((λ _. (r, w)) >>= f) w).1.state
after-IsPool f (ok a) w k v = k a w v
after-IsPool f (fail e) w k v = v
after-IsPool f panic w k v = v

pub bind-KeepsPool :
    {A B : Type 0} (m : Action A) (f : A → Action B)
    → KeepsPool m
    → ((a : A) → KeepsPool (f a))
    → KeepsPool (m >>= f)
bind-KeepsPool m f k l w v = after-IsPool f (m w).0 (m w).1 l (k w v)

pub update-KeepsPool :
    (f : State → Outcome DockerError State)
    → ((s : State) → IsPool s → OnOk IsPool (f s))
    → KeepsPool (update f)
update-KeepsPool f k w v = elim (Outcome-cases (f w.state)) [
  | inl (s, e) ↦ rw (e, update) (subst (OnOk IsPool) e (k w.state v))
  | inr (inl (x, e)) ↦ rw (e, update) v
  | inr (inr e) ↦ rw (e, update) v
]

-- One network keeps its name when it gets another container.
enter_networks-lookup :
    (id name : Text) (m : Dict Text EndpointSettings) (networks entered : Dict Text Network)
    (other : Text)
    → enter_networks id name m networks ≡ some entered
    → lookup other entered ≡ none
    → lookup other networks ≡ none
unfolding enter_networks
enter_networks-lookup id name [] networks entered other =
    λ e f. let same : entered ≡ networks = cc in subst (λ l. lookup other l ≡ none) same f
enter_networks-lookup id name ((net_name, x) ∷ m) networks entered other =
    elim (Option-cases (lookup net_name networks)) [
      | inl g ↦ rw (g, enter_networks) (λ e f. absurd (cc))
      | inr (n, g) ↦
          rw (g, enter_networks)
            (λ e f.
              (not_inserted net_name other _ networks
                (enter_networks-lookup id name m _ entered other e f)).1)
    ]

module _ {Time : Type 0} (packages : Packages Time) (sources : Sources Time) where
  join_network-KeepsPool :
      (service : ServiceConfig) (project_networks : Dict Text NetworkConfig) (name : Text)
      (config : Option ServiceNetworkConfig) (networks : Dict Text EndpointSettings)
      → KeepsPool (join_network packages sources service project_networks name config networks)
  unfolding join_network create_random_id
  join_network-KeepsPool service project_networks name config networks w v =
      elim (Option-cases (lookup (project_network project_networks name).name w.state.networks)) [
        | inl e ↦ rw e v
        | inr (n, e) ↦
            rw e (alike w.state w.state.containers w.state.volumes _ w.state.service_hashes v)
      ]

  join_networks-KeepsPool :
      (service : ServiceConfig) (project_networks : Dict Text NetworkConfig)
      (m : Dict Text (Option ServiceNetworkConfig)) (networks : Dict Text EndpointSettings)
      → KeepsPool (join_networks packages sources service project_networks m networks)
  unfolding join_networks
  join_networks-KeepsPool service project_networks [] networks = λ w v. v
  join_networks-KeepsPool service project_networks ((name, config) ∷ m) networks =
      bind-KeepsPool (join_network packages sources service project_networks name config networks)
        (join_networks packages sources service project_networks m)
        (join_network-KeepsPool service project_networks name config networks)
        (join_networks-KeepsPool service project_networks m)

  store_container-KeepsPool :
      (service : ServiceConfig) (c : Container) (networks : Dict Text EndpointSettings)
      → KeepsPool (store_container packages sources service c networks)
  unfolding store_container
  store_container-KeepsPool service c networks w v =
      elim (Option-cases (enter_networks c.id c.name networks w.state.networks)) [
        | inl e ↦ rw (e, store_container) v
        | inr (entered, e) ↦
            rw (e, store_container)
              (renewed w.state _ entered
                (λ name. enter_networks-lookup c.id c.name networks w.state.networks entered name e)
                v)
      ]

  complete_service-KeepsPool :
      (service : ServiceConfig) (networks : Dict Text NetworkConfig) (state : ContainerState)
      (parts : Parts) (joined : Dict Text EndpointSettings)
      → KeepsPool (complete_service packages sources service networks state parts joined)
  unfolding complete_service time_now create_random_id
  complete_service-KeepsPool service networks state parts joined w v =
      elim (Outcome-cases (retry_count service.health_check)) [
        | inl (retries, e) ↦
            rw (e, complete_service) (store_container-KeepsPool service _ joined _ v)
        | inr (inl (x, e)) ↦ rw (e, complete_service) v
        | inr (inr e) ↦ rw (e, complete_service) v
      ]

  pub generate_service-KeepsPool :
      (service : ServiceConfig) (networks : Dict Text NetworkConfig)
      (volumes : Dict Text VolumeConfig)
      → KeepsPool (generate_service packages sources service networks volumes)
  unfolding generate_service time_now
  generate_service-KeepsPool service networks volumes w v =
      let made =
        make_parts packages.volume_string packages.new_port service volumes w.state.volumes in
      elim (Outcome-cases made) [
        | inl (parts, e) ↦
            rw (e, generate_service)
              (bind-KeepsPool (join_networks packages sources service networks service.networks [])
                (complete_service packages sources service networks _ parts)
                (join_networks-KeepsPool service networks service.networks [])
                (complete_service-KeepsPool service networks _ parts)
                (record w { ticks = suc w.ticks }) v)
        | inr (inl (x, e)) ↦ rw (e, generate_service) v
        | inr (inr e) ↦ rw (e, generate_service) v
      ]
