-- ===== src/Docker/Generation/Addresses.antt =====
-- The addresses of docker/generation.go: `generateService` numbers the containers of a network by a
-- byte for each name in the YAML file.
pub mod Distinct
use osha.Base.{
  ℕ, ◌+◌, ◌%◌, ◌<◌, ◌≡◌, ◌≢◌, refl, sym, ◌∙◌, ap, ap₂, subst, inl, inr, true, false, List, [], ◌∷◌,
  ◌++◌, Option, none, some, Text, text_eq, text_beq, text_beq_iff, Dict, lookup, insert,
  lookup-insert, or_zero, ==-refl, arith, if◌then◌else◌, ◌==◌, ok, All, All-map, Bool-cases,
  Option-cases,
}
use osha.Docker.{State}
use osha.Docker.Compose.Types.{NetworkConfig, VolumeConfig, ServiceConfig, ServiceNetworkConfig}
use osha.Docker.Generation.Joining.{bind-ok, join_network-ok}
use osha.Docker.Generation.Running.{Generated, generate_service-Generated}
use osha.Docker.Generation.Services.{
  project_network, make_endpoint, ip_address_of, add_dns_names, join_network, join_networks,
  endpoint_resource, generate_service,
}
use osha.Docker.Generation.Effects.{entered_lem}
use osha.Docker.Generation.Settings.{Packages}
use osha.Docker.Generation.World.{World, Sources}
use osha.Docker.Networks.{in_network}
use osha.Docker.Objects.{Container, Endpoint, EndpointSettings, Network}

abbrev pub index_of : Text → State → ℕ
index_of name_in_yaml s = or_zero 0 (lookup name_in_yaml s.network_indices)

abbrev pub subnet_of : Text → State → ℕ
subnet_of name s = or_zero 0 (lookup name s.used_subnets)

abbrev pub Networks : Type 0
Networks = Dict Text (Option ServiceNetworkConfig)

different : (a b : Text) → a ≢ b → text_beq a b ≡ false
different a b d = ground (arith, text_beq_iff a b, d)

module _ (project_networks : Dict Text NetworkConfig) where
  abbrev pub name_of : Text → Text
  name_of name_in_yaml = (project_network project_networks name_in_yaml).name

  -- No two of a service's networks have one name in the project.
  abbrev pub AreApart : Networks → Type 0
  AreApart [] = Unit {0}
  AreApart ((y, config) ∷ m) = All (λ entry. name_of entry.0 ≢ name_of y) m × AreApart m

  module _ {Time : Type 0} (packages : Packages Time) (sources : Sources Time)
      (service : ServiceConfig) where
    -- A network that is not joined.
    name_kept :
        (name : Text) (m : Networks) (networks : Dict Text EndpointSettings) (w : World)
        {all : Dict Text EndpointSettings} {w' : World}
        → All (λ entry. name_of entry.0 ≢ name) m
        → join_networks packages sources service project_networks m networks w ≡ (ok all, w')
        → lookup name all ≡ lookup name networks
    unfolding join_networks
    name_kept name [] networks w {all} a e =
        let same : networks ≡ all = cc (ap (λ p. p.0) e) in rw same
    name_kept name ((y, config) ∷ m) networks w {all} {w'} a e =
        let step = join_network packages sources service project_networks y config networks w in
        let (first, done, rest) =
          bind-ok (join_network packages sources service project_networks y config networks)
            (join_networks packages sources service project_networks m) w w' e in
        let (n, id, there, adds, moves) =
          join_network-ok packages sources service project_networks y config networks w
            (λ i. (done i, step.1)) in
        name_kept name m first step.1 a.1 rest
        ∙ ap (lookup name) adds
        ∙ lookup-insert (name_of y) name _ networks
        ∙ rw (different (name_of y) name a.0)

    pub index_kept :
        (z : Text) (m : Networks) (networks : Dict Text EndpointSettings) (w : World)
        {all : Dict Text EndpointSettings} {w' : World}
        → All (λ entry. entry.0 ≢ z) m
        → join_networks packages sources service project_networks m networks w ≡ (ok all, w')
        → lookup z w'.state.network_indices ≡ lookup z w.state.network_indices
    unfolding join_networks
    index_kept z [] networks w {all} {w'} a e = ap (λ p. lookup z p.1.state.network_indices) (sym e)
    index_kept z ((y, config) ∷ m) networks w {all} {w'} a e =
        let step = join_network packages sources service project_networks y config networks w in
        let (first, done, rest) =
          bind-ok (join_network packages sources service project_networks y config networks)
            (join_networks packages sources service project_networks m) w w' e in
        let (n, id, there, adds, moves) =
          join_network-ok packages sources service project_networks y config networks w
            (λ i. (done i, step.1)) in
        index_kept z m first step.1 a.1 rest
        ∙ ap (λ (s : State). lookup z s.network_indices) moves
        ∙ lookup-insert y z _ w.state.network_indices
        ∙ rw (different y z a.0)

    -- The endpoint of a network that is joined has the next address, and the index moves on.
    address :
        (z : Text) (config : Option ServiceNetworkConfig) (m : Networks)
        (networks : Dict Text EndpointSettings) (w : World) {all : Dict Text EndpointSettings}
        {w' : World}
        → lookup z m ≡ some config
        → AreApart m
        → join_networks packages sources service project_networks m networks w ≡ (ok all, w')
        → (ep : EndpointSettings) × (lookup (name_of z) all ≡ some ep)
          × (ep.ip_address ≡ ip_address_of (subnet_of (name_of z) w.state) (index_of z w.state))
          × (lookup z w'.state.network_indices ≡ some ((index_of z w.state + 1) % 256))
    unfolding join_networks lookup make_endpoint
    address z config [] networks w f a e = absurd (cc)
    address z config ((y, c) ∷ m) networks w {all} {w'} f a e =
        let step = join_network packages sources service project_networks y c networks w in
        let (first, done, rest) =
          bind-ok (join_network packages sources service project_networks y c networks)
            (join_networks packages sources service project_networks m) w w' e in
        let (n, id, there, adds, moves) =
          join_network-ok packages sources service project_networks y c networks w
            (λ i. (done i, step.1)) in
        let indices = ap (λ (s : State). lookup z s.network_indices) moves in
        let index = indices ∙ lookup-insert y z _ w.state.network_indices in
        elim (Bool-cases (text_beq y z)) [
          | inl hit ↦
              let same : y ≡ z = (text_beq_iff y z).0 hit in
              let apart : All (λ entry. entry.0 ≢ y) m =
                All-map {P = λ entry. name_of entry.0 ≢ name_of y} (λ entry h g. h (ap name_of g)) m
                  a.0 in
              let ep =
                make_endpoint service c n (subnet_of (name_of y) w.state) (index_of y w.state) id in
              (
                ep,
                subst (λ t. lookup (name_of t) all ≡ some ep) same
                    (name_kept (name_of y) m first step.1 a.0 rest
                      ∙ ap (lookup (name_of y)) adds
                      ∙ lookup-insert (name_of y) (name_of y) _ networks
                      ∙ rw (==-refl (name_of y))),
                ap (λ t. ip_address_of (subnet_of (name_of t) w.state) (index_of t w.state)) same,
                subst
                    (λ t. lookup t w'.state.network_indices ≡ some ((index_of t w.state + 1) % 256))
                    same
                    (index_kept y m first step.1 apart rest
                      ∙ ap (λ (s : State). lookup y s.network_indices) moves
                      ∙ lookup-insert y y _ w.state.network_indices
                      ∙ rw (==-refl y)),
              )
          | inr miss ↦
              let (ep, found, ip, moved) =
                address z config m first step.1 (ground (arith, f)) a.1 rest in
              let other : lookup z step.1.state.network_indices ≡ lookup z w.state.network_indices =
                index ∙ rw miss in
              let kept : index_of z step.1.state ≡ index_of z w.state = ap (or_zero 0) other in
              let subnet = ap (λ (s : State). subnet_of (name_of z) s) moves in
              (
                ep,
                found,
                ip ∙ ap₂ ip_address_of subnet kept,
                moved ∙ ap (λ i. some ((i + 1) % 256)) kept,
              )
        ]

    dns_kept :
        (hostname name : Text) (m : Dict Text EndpointSettings) {ep : EndpointSettings}
        → lookup name m ≡ some ep
        → (ep' : EndpointSettings) × (lookup name (add_dns_names hostname m) ≡ some ep')
          × (ep'.ip_address ≡ ep.ip_address)
    unfolding lookup add_dns_names
    dns_kept hostname name [] e = absurd (cc)
    dns_kept hostname name ((net, p) ∷ m) {ep} e = elim (Bool-cases (text_beq net name)) [
      | inl hit ↦
          let same : p ≡ ep = ground (arith, e) in
          (
            record p { dns_names = p.dns_names ++ (p.aliases ++ hostname ∷ []) },
            rw hit,
            ap (λ (q : EndpointSettings). q.ip_address) same,
          )
      | inr miss ↦
          let (q, found, ip) = dns_kept hostname name m {ep = ep} (ground (arith, e)) in
          (q, rw miss found, ip)
    ]

    module _ (project_volumes : Dict Text VolumeConfig) (w : World) {w' : World}
        (e : generate_service packages sources service project_networks project_volumes w
          ≡ (ok tt, w')) where
      -- A generated container has on each of its networks, if no two of them are one network of the
      -- project, the address that the index of the network's name in the YAML file gives in the
      -- network's subnet, and the index moves on by one, from 255 to 0.
      pub generate_service-address :
          (name_in_yaml : Text) (config : Option ServiceNetworkConfig)
          → lookup name_in_yaml service.networks ≡ some config
          → AreApart service.networks
          → (c : Container) × (ep : Endpoint) × (lookup service.container_name w'.state.containers
              ≡ some c)
            × (in_network c.id (lookup (name_of name_in_yaml) w'.state.networks) ≡ some ep)
            × (ep.ipv4_address
                ≡ ip_address_of
                    (subnet_of (name_of name_in_yaml) w.state)
                    (index_of name_in_yaml w.state))
            × (index_of name_in_yaml w'.state ≡ (index_of name_in_yaml w.state + 1) % 256)
      unfolding endpoint_resource
      generate_service-address z config f a =
          let (joins, w₁, w₂, same, run, indices, g) =
            generate_service-Generated packages sources service project_networks project_volumes w
              e in
          let (ep, found, ip, moved) = address z config service.networks [] w₁ f a run in
          let (q, found', ip') = dns_kept g.hostname (name_of z) joins found in
          let here : lookup (name_of z) g.settings.networks ≡ some q =
            ap (lookup (name_of z)) g.settled ∙ found' in
          let start =
            ap (λ (s : State). ip_address_of (subnet_of (name_of z) s) (index_of z s)) same in
          (
            g.container,
            endpoint_resource g.container.name q,
            ap (lookup service.container_name) g.stored
                ∙ lookup-insert service.container_name service.container_name g.container
                    w.state.containers
                ∙ rw (==-refl service.container_name),
            entered_lem g.container.id g.container.name g.container.id (name_of z)
                  g.settings.networks w.state.networks g.unique g.entered
                ∙ rw (==-refl g.container.id, here),
            ip' ∙ ip ∙ start,
            ap (λ m. or_zero 0 (lookup z m)) indices
                ∙ ap (or_zero 0) moved
                ∙ ap (λ (s : State). (index_of z s + 1) % 256) same,
          )
