-- ===== src/Docker/Generation/Effects.antt =====
-- `generateService` of docker/generation.go and its neighbours `ContainerRemove` and `NetworkRemove`
-- of docker/client.go: what they do to the containers and to the endpoints of the networks.
use osha.Base.{
  ◌≡◌, ◌≢◌, refl, ◌∙◌, ap, subst, inl, inr, Bool, true, false, ◌&&◌, [], ◌∷◌, Option, none, some,
  Text, text_eq, text_beq, text_beq_iff, Dict, lookup, insert, keys, lookup-empty, lookup-insert,
  arith, if◌then◌else◌, ==-refl, ok, fail, Bool-cases, Option-cases,
}
use osha.Docker.{State, network_in_use}
use osha.Docker.Client.{container_remove, network_remove}
use osha.Docker.Compose.Types.{NetworkConfig, VolumeConfig, ServiceConfig}
use osha.Docker.Generation.Listed.{lists, keys-dns, listed_lem}
use osha.Docker.Generation.Running.{generate_service-Generated}
use osha.Docker.Generation.Services.{enter_networks, endpoint_resource, generate_service}
use osha.Docker.Generation.Settings.{Packages}
use osha.Docker.Generation.World.{World, Sources}
use osha.Docker.Networks.{in_network, listed, container_remove_lem}
use osha.Docker.Objects.{Container, Endpoint, EndpointSettings, Network, NetworkSettings}
use osha.Docker.Subnets.{list_cases}
use osha.Docker.Subnets.Pool.{IsUnique}

-- The endpoint of the new container, where it joins the network, or what was there.
abbrev pub entered_or : Text → Option EndpointSettings → Option Endpoint → Option Endpoint
entered_or name none old = old
entered_or name (some e) old = some (endpoint_resource name e)

module _ (id name x net : Text) where
  here :
      (net_name : Text) (ep : Endpoint) (n : Network) (networks : Dict Text Network)
      → lookup net_name networks ≡ some n
      → in_network x (
          lookup net
            (insert net_name (record n { containers = insert id ep n.containers }) networks))
        ≡ (if text_beq net_name net && text_beq id x
            then some ep
            else in_network x (lookup net networks))
  here net_name ep n networks e = elim (Bool-cases (text_beq net_name net)) [
    | inl hit ↦
        let there : lookup net networks ≡ some n =
          subst (λ l. lookup l networks ≡ some n) ((text_beq_iff net_name net).0 hit) e in
        rw (lookup-insert net_name net _ networks, hit, lookup-insert id x ep n.containers, there)
    | inr miss ↦ rw (lookup-insert net_name net _ networks, miss)
  ]

  -- Entering a container adds its endpoints to its networks and changes no other.
  pub entered_lem :
      (m : Dict Text EndpointSettings) (networks : Dict Text Network) {out : Dict Text Network}
      → IsUnique m
      → enter_networks id name m networks ≡ some out
      → in_network x (lookup net out) ≡ (
          if text_beq id x
          then entered_or name (lookup net m) (in_network x (lookup net networks))
          else in_network x (lookup net networks))
  unfolding enter_networks lookup
  entered_lem [] networks {out} u = λ e.
      let same : networks ≡ out = cc e in
      subst
        (λ (o : Dict Text Network). in_network x (lookup net o) ≡ (
          if text_beq id x
          then in_network x (lookup net networks)
          else in_network x (lookup net networks)))
        same (ground arith)
  entered_lem ((net_name, p) ∷ m) networks {out} u =
      elim (Option-cases (lookup net_name networks)) [
        | inl f ↦ rw (f, enter_networks) (λ e. absurd (cc))
        | inr (n, f) ↦
            rw (f, enter_networks)
              (λ e.
                entered_lem m _ u.1 e
                ∙ rw (here net_name (endpoint_resource name p) n networks f)
                    (elim (Bool-cases (text_beq net_name net)) [
                      | inl hit ↦
                          let last : lookup net m ≡ none =
                            subst (λ l. lookup l m ≡ none) ((text_beq_iff net_name net).0 hit)
                              u.0 in
                          rw (hit, last) (ground arith)
                      | inr miss ↦ rw miss
                    ]))
      ]

-- Removing the endpoints of a container undoes entering it.
gone :
    (net : Text) (m : Dict Text EndpointSettings) (name : Text) (own : Bool) (old : Option Endpoint)
    → (if listed net (keys m) && own
        then none
        else if own
        then entered_or name (lookup net m) old
        else old)
      ≡ (if listed net (keys m) && own then none else old)
unfolding keys lookup
gone net [] name true old = refl
gone net [] name false old = refl
gone net ((key, p) ∷ m) name own old = elim (Bool-cases (text_beq key net)) [
  | inl hit ↦ rw hit (ground arith)
  | inr miss ↦ rw miss (gone net m name own old)
]

-- A network with an endpoint is in use.
used :
    (id net : Text) (s : State) {old : Endpoint}
    → in_network id (lookup net s.networks) ≡ some old
    → network_remove net s ≡ fail (network_in_use net)
unfolding network_remove
used id net s {old} = elim (Option-cases (lookup net s.networks)) [
  | inl f ↦ rw f (λ e. absurd (cc))
  | inr (n, f) ↦ elim (list_cases n.containers) [
    | inl g ↦ rw (f, g, lookup-empty {V = Endpoint} id) (λ e. absurd (cc))
    | inr (x, xs, g) ↦ rw (f, g, network_remove) (λ e. refl)
  ]
]

module _ {Time : Type 0} (packages : Packages Time) (sources : Sources Time)
    (service : ServiceConfig) (project_networks : Dict Text NetworkConfig)
    (project_volumes : Dict Text VolumeConfig) (w : World) {w' : World}
    (e : generate_service packages sources service project_networks project_volumes w
      ≡ (ok tt, w')) where
  -- Where the service's container is generated, it is stored under its container name and every other
  -- name keeps its container; its settings have the networks of the project that the service lists and
  -- no others; it has an endpoint under its id in each of these, with the address of its settings
  -- there; every other endpoint of every network is as before; and the volumes, the subnets and the
  -- hashes are as before.
  pub generate_service_lem :
      (c : Container) × (settings : NetworkSettings) × (c.network_settings ≡ some settings)
      × (c.name ≡ b'/' ∷ service.container_name)
      × ((net : Text)
          → listed net (keys settings.networks) ≡ lists project_networks net service.networks)
      × ((name : Text)
          → lookup name w'.state.containers ≡ (
              if text_beq service.container_name name
              then some c
              else lookup name w.state.containers))
      × ((id net : Text)
          → in_network id (lookup net w'.state.networks) ≡ (
              if text_beq c.id id
              then entered_or c.name
                  (lookup net settings.networks)
                  (in_network id (lookup net w.state.networks))
              else in_network id (lookup net w.state.networks)))
      × (w'.state ≡ record w.state {
        containers = w'.state.containers;
        networks = w'.state.networks;
        network_indices = w'.state.network_indices;
      })
  generate_service_lem =
      let (joins, w₁, w₂, same, run, indices, g) =
        generate_service-Generated packages sources service project_networks project_volumes w e in
      (
        g.container,
        g.settings,
        g.attached,
        g.named,
        λ net.
            ap (λ m. listed net (keys m)) g.settled
            ∙ ap (listed net) (keys-dns g.hostname joins)
            ∙ listed_lem packages sources service project_networks net service.networks w₁ run,
        λ name.
            ap (lookup name) g.stored
            ∙ lookup-insert service.container_name name g.container w.state.containers,
        λ id net.
            entered_lem g.container.id g.container.name id net g.settings.networks w.state.networks
              g.unique g.entered,
        g.kept,
      )

  -- A container that was just generated can be removed. Its name is free then and every other name
  -- keeps its container; it has no endpoint left in the networks that it had joined, and every other
  -- endpoint of every network is what it was before it was generated.
  pub container_remove-generate_service :
      (c : Container) × (settings : NetworkSettings) × (c.network_settings ≡ some settings)
      × (lookup service.container_name w'.state.containers ≡ some c)
      × (s : State) × (container_remove service.container_name w'.state ≡ ok s)
      × ((name : Text)
          → lookup name s.containers ≡ (
              if text_beq service.container_name name
              then none
              else lookup name w.state.containers))
      × ((id net : Text)
          → in_network id (lookup net s.networks) ≡ (
              if listed net (keys settings.networks) && text_beq c.id id
              then none
              else in_network id (lookup net w.state.networks)))
  container_remove-generate_service =
      let (c, settings, attached, named, _, containers, endpoints, kept) = generate_service_lem in
      let stored : lookup service.container_name w'.state.containers ≡ some c =
        containers service.container_name ∙ rw (==-refl service.container_name) in
      let (s, done, left, out) =
        container_remove_lem service.container_name c settings w'.state stored attached in
      (
        c,
        settings,
        attached,
        stored,
        s,
        done,
        λ name. left name ∙ rw (containers name) (ground arith),
        λ id net.
            out id net
            ∙ rw (endpoints id net) (
                gone net settings.networks c.name (text_beq c.id id)
                  (in_network id (lookup net w.state.networks))),
      )

  -- Generating a service again does not take the old container out of its networks: an endpoint of
  -- another container is still there when the new container is removed, and then the network cannot
  -- be removed.
  pub network_remove-regenerated :
      (c : Container) (id net : Text) (old : Endpoint)
      → lookup service.container_name w'.state.containers ≡ some c
      → c.id ≢ id
      → in_network id (lookup net w.state.networks) ≡ some old
      → (s : State) × (container_remove service.container_name w'.state ≡ ok s)
        × (network_remove net s ≡ fail (network_in_use net))
  network_remove-regenerated c id net old found differ joined =
      let (c', settings, attached, stored, s, done, left, out) =
        container_remove-generate_service in
      let same : c' ≡ c = cc (found, stored) in
      let other : text_beq c'.id id ≡ false =
        rw same (ground (arith, text_beq_iff c.id id, differ)) in
      (s, done, used id net s {old = old} (out id net ∙ rw (other, joined) (ground arith)))
