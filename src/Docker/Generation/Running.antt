-- ===== src/Docker/Generation/Running.antt =====
-- How `generateService` of docker/generation.go runs: what a call that succeeds has computed.
use osha.Base.{
  ℕ, suc, ◌≡◌, refl, sym, ◌∙◌, ◌++◌, ap, bytes, subst, inl, inr, [], ◌∷◌, some, Text, text_eq, Dict,
  insert, Outcome, ok, text_beq, take, if◌then◌else◌, Option-cases, Outcome-cases,
}
use osha.Docker.{State, DockerError}
use osha.Docker.Compose.Types.{NetworkConfig, VolumeConfig, ServiceConfig}
use osha.Docker.Generation.Bindings.{Parts, make_parts}
use osha.Docker.Generation.Services.{
  add_dns_names, enter_networks, join_networks, make_container, store_container, complete_service,
  generate_service,
}
use osha.Docker.Generation.Settings.{Packages, retry_count}
use osha.Docker.Generation.World.{World, Sources, create_random_id, time_now}
use osha.Docker.Subnets.Pool.{IsUnique}
use osha.Docker.Objects.{Container, ContainerState, EndpointSettings, Network, NetworkSettings}
use osha.Docker.Generation.Joining.{bind-ok, joined, IsUnique-dns, enter_networks-dns}

-- What a call of `generateService` that succeeds makes of the state, from the endpoints that it joined.
pub record Generated (service : ServiceConfig) (joins : Dict Text EndpointSettings) (s s' : State)
    : Type 0 where
  pub hostname : Text
  pub container : Container
  pub settings : NetworkSettings
  pub named : container.name ≡ b'/' ∷ service.container_name
  pub attached : container.network_settings ≡ some settings
  pub settled : settings.networks ≡ add_dns_names hostname joins
  pub unique : IsUnique settings.networks
  pub stored : s'.containers ≡ insert service.container_name container s.containers
  pub entered :
      enter_networks container.id container.name settings.networks s.networks ≡ some s'.networks
  pub kept : s' ≡ record s {
    containers = s'.containers;
    networks = s'.networks;
    network_indices = s'.network_indices;
  }

-- Other indices at the start make no difference.
before :
    (service : ServiceConfig) (joins : Dict Text EndpointSettings) (s : State)
    (indices : Dict Text ℕ) (s' : State)
    → Generated service joins (record s { network_indices = indices }) s'
    → Generated service joins s s'
before service joins s indices s' g = record {
  hostname = g.hostname;
  settled = g.settled;
  container = g.container;
  settings = g.settings;
  named = g.named;
  attached = g.attached;
  unique = g.unique;
  stored = g.stored;
  entered = g.entered;
  kept = g.kept;
}

module _ {Time : Type 0} (packages : Packages Time) (sources : Sources Time) where
  store_container-ok :
      (service : ServiceConfig) (c : Container) (networks : Dict Text EndpointSettings) (w : World)
      {w' : World}
      → store_container packages sources service c networks w ≡ (ok tt, w')
      → (entered : Dict Text Network) × (enter_networks c.id c.name networks w.state.networks
          ≡ some entered)
        × (w'.state ≡ record w.state {
          containers = insert service.container_name c w.state.containers;
          networks = entered;
        })
  unfolding store_container
  store_container-ok service c networks w {w'} =
      elim (Option-cases (enter_networks c.id c.name networks w.state.networks)) [
        | inl f ↦ rw f (λ e. absurd (cc))
        | inr (entered, f) ↦ rw f (λ e.
            (entered, refl, ap (λ (p : Outcome DockerError (Unit {0}) × World). p.1.state) (sym e)))
      ]

  made :
      (service : ServiceConfig) (project_networks : Dict Text NetworkConfig)
      (state : ContainerState) (parts : Parts) (networks : Dict Text EndpointSettings) (retries : ℕ)
      (id image sandbox created : Text) (w : World) {w' : World}
      → store_container packages sources service
          (make_container packages sources service project_networks state parts retries networks id
            image sandbox created)
          networks
          w
        ≡ (ok tt, w')
      → IsUnique networks
      → Generated service networks w.state w'.state
        × (w'.state.network_indices ≡ w.state.network_indices)
  unfolding make_container
  made service project_networks state parts networks retries id image sandbox created w {w'} e u =
      let c =
        make_container packages sources service project_networks state parts retries networks id
          image sandbox created in
      let hostname = if text_beq service.hostname [] then take 12 id else service.hostname in
      let (entered, done, same) = store_container-ok service c networks w e in
      (
        record {
          hostname = hostname;
          settled = refl;
          container = c;
          settings = record {
            sandbox_id = sandbox;
            sandbox_key = bytes "/var/run/docker/netns/" ++ take 12 sandbox;
            ports = parts.port_maps.ns_ports;
            networks = add_dns_names hostname networks;
          };
          named = refl;
          attached = refl;
          unique = IsUnique-dns hostname networks u;
          stored = ap (λ (s : State). s.containers) same;
          entered =
              enter_networks-dns id c.name hostname networks w.state.networks
              ∙ done
              ∙ ap (λ (s : State). some s.networks) (sym same);
          kept =
              subst
                (λ (t : State). t ≡ record w.state {
                  containers = t.containers;
                  networks = t.networks;
                  network_indices = t.network_indices;
                })
                (sym same) refl;
        },
        ap (λ (s : State). s.network_indices) same,
      )

  completed :
      (service : ServiceConfig) (project_networks : Dict Text NetworkConfig)
      (state : ContainerState) (parts : Parts) (networks : Dict Text EndpointSettings) (w : World)
      {w' : World}
      → complete_service packages sources service project_networks state parts networks w
        ≡ (ok tt, w')
      → IsUnique networks
      → Generated service networks w.state w'.state
        × (w'.state.network_indices ≡ w.state.network_indices)
  unfolding complete_service time_now create_random_id
  completed service project_networks state parts networks w {w'} =
      elim (Outcome-cases (retry_count service.health_check)) [
        | inl (retries, f) ↦
            rw f (λ e u. made service project_networks state parts networks retries _ _ _ _ _ e u)
        | inr (inl (x, f)) ↦ rw f (λ e u. absurd (cc))
        | inr (inr f) ↦ rw f (λ e u. absurd (cc))
      ]

  -- A call of `generateService` that succeeds has joined the networks, and then stored a container
  -- that they have.
  pub generate_service-Generated :
      (service : ServiceConfig) (project_networks : Dict Text NetworkConfig)
      (project_volumes : Dict Text VolumeConfig) (w : World) {w' : World}
      → generate_service packages sources service project_networks project_volumes w ≡ (ok tt, w')
      → (joins : Dict Text EndpointSettings) × (w₁ w₂ : World) × (w₁.state ≡ w.state)
        × (join_networks packages sources service project_networks service.networks [] w₁
            ≡ (ok joins, w₂))
        × (w'.state.network_indices ≡ w₂.state.network_indices)
        × Generated service joins w.state w'.state
  unfolding generate_service time_now
  generate_service-Generated service project_networks project_volumes w {w'} =
      elim (Outcome-cases (
        make_parts packages.volume_string packages.new_port service project_volumes
          w.state.volumes)) [
            | inl (parts, f) ↦ rw f (λ e.
                let w₁ : World = record w { ticks = suc w.ticks } in
                let (joins, done, rest) =
                  bind-ok
                    (join_networks packages sources service project_networks service.networks [])
                    (complete_service packages sources service project_networks _ parts) w₁ w' e in
                let w₂ =
                  (join_networks packages sources service project_networks service.networks []
                    w₁).1 in
                let (same, u) =
                  joined packages sources service project_networks service.networks [] w₁
                    (λ i. (done i, w₂)) tt in
                let (g, kept) = completed service project_networks _ parts joins w₂ rest u in
                (
                  joins,
                  w₁,
                  w₂,
                  refl,
                  λ i. (done i, w₂),
                  kept,
                  before service joins w.state _ w'.state
                      (subst (λ (s : State). Generated service joins s w'.state) same g),
                ))
            | inr (inl (x, f)) ↦ rw f (λ e. absurd (cc))
            | inr (inr f) ↦ rw f (λ e. absurd (cc))
          ]
