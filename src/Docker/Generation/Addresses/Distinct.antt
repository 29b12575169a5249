-- ===== src/Docker/Generation/Addresses/Distinct.antt =====
-- Services that share a name of a network in docker/generation.go, until its index has gone round.
use osha.Base.{
  ℕ, ◌+◌, ◌%◌, ◌<◌, ◌≡◌, ◌≢◌, refl, sym, ◌∙◌, ap, inl, inr, List, [], ◌∷◌, ◌++◌, Option, none, some,
  Text, bytes, text_eq, Dict, lookup, arith, ok, All, text_beq, text_beq_iff, Bool-cases, or_zero,
  Option-cases, u64_mod, Outcome,
}
use osha.Docker.{State}
use osha.Docker.Compose.Types.{NetworkConfig, VolumeConfig, ServiceConfig, ServiceNetworkConfig}
use osha.Docker.Generation.Addresses.{
  index_of, subnet_of, Networks, name_of, AreApart, index_kept, generate_service-address,
}
use osha.Docker.Generation.Running.{generate_service-Generated}
use osha.Docker.Generation.Services.{ip_address_of, generate_service}
use osha.Docker.Generation.Settings.{Packages}
use osha.Docker.Generation.World.{World, Sources}
use osha.Docker.Networks.{in_network}
use osha.Docker.Objects.{Container, Endpoint}
use osha.Go.Strconv.{NumError, format_uint, parse_uint, parse_uint-format_uint}

append_cancel : (s t u : Text) → s ++ t ≡ s ++ u → t ≡ u
append_cancel [] t u e = e
append_cancel (c ∷ s) t u e = append_cancel s t u (cc e)

format_uint-injective :
    (a b : ℕ) → a < u64_mod → b < u64_mod → format_uint a ≡ format_uint b → a ≡ b
format_uint-injective a b la lb e =
    let same : ◌≡◌ {A = Outcome NumError ℕ} (ok a) (ok b) =
      sym (parse_uint-format_uint 64 a la la)
      ∙ ap (parse_uint 64) e
      ∙ parse_uint-format_uint 64 b lb lb in
    cc same

ip_address_of-injective :
    (subnet a b : ℕ)
    → a < u64_mod
    → b < u64_mod
    → ip_address_of subnet a ≡ ip_address_of subnet b
    → a ≡ b
unfolding ip_address_of
ip_address_of-injective subnet a b la lb e =
    let inner =
      append_cancel (format_uint subnet) (bytes ".0." ++ format_uint a)
        (bytes ".0." ++ format_uint b) (append_cancel (bytes "172.") _ _ e) in
    format_uint-injective a b la lb (append_cancel (bytes ".0.") _ _ inner)

no_entry : (z : Text) (m : Networks) → lookup z m ≡ none → All (λ entry. entry.0 ≢ z) m
unfolding lookup
no_entry z [] e = tt
no_entry z ((y, c) ∷ m) e = elim (Bool-cases (text_beq y z)) [
  | inl hit ↦ absurd (ground (arith, e))
  | inr miss ↦ (λ g. cc ((text_beq_iff y z).1 g), no_entry z m (ground (arith, e)))
]

abbrev pub held_by : Option (Option ServiceNetworkConfig) → ℕ
held_by none = 0
held_by (some _) = 1

-- How many of the services are on the network of this name.
abbrev pub users : Text → List ServiceConfig → ℕ
users z [] = 0
users z (service ∷ ss) = held_by (lookup z service.networks) + users z ss

module _ {Time : Type 0} (packages : Packages Time) (sources : Sources Time)
    (project_networks : Dict Text NetworkConfig) (project_volumes : Dict Text VolumeConfig) where
  -- The services are generated one after the other.
  pub data Generates : World → List ServiceConfig → World → Type 0 where
    finished : (w : World) → Generates w [] w
    next :
        (service : ServiceConfig) (ss : List ServiceConfig) (w w' w'' : World)
        → generate_service packages sources service project_networks project_volumes w ≡ (ok tt, w')
        → Generates w' ss w''
        → Generates w (service ∷ ss) w''

  subnet_kept :
      (name : Text) (service : ServiceConfig) (w w' : World)
      → generate_service packages sources service project_networks project_volumes w ≡ (ok tt, w')
      → subnet_of name w'.state ≡ subnet_of name w.state
  subnet_kept name service w w' e =
      ap (λ (s : State). subnet_of name s)
        (generate_service-Generated packages sources service project_networks project_volumes w
          e).6.kept

  subnets_kept :
      (name : Text) {ss : List ServiceConfig} {w w' : World}
      → Generates w ss w'
      → subnet_of name w'.state ≡ subnet_of name w.state
  subnets_kept name (finished w) = refl
  subnets_kept name (next service ss w w' w'' e g) =
      subnets_kept name g ∙ subnet_kept name service w w' e

  advance_one :
      (z : Text) (service : ServiceConfig) (w w' : World)
      → generate_service packages sources service project_networks project_volumes w ≡ (ok tt, w')
      → AreApart project_networks service.networks
      → index_of z w.state < 256
      → index_of z w'.state ≡ (index_of z w.state + held_by (lookup z service.networks)) % 256
  advance_one z service w w' e a lt = elim (Option-cases (lookup z service.networks)) [
    | inl f ↦
        let (joins, w₁, w₂, same, run, indices, g) =
          generate_service-Generated packages sources service project_networks project_volumes w
            e in
        let kept =
          index_kept project_networks packages sources service z service.networks [] w₁
            (no_entry z service.networks f) run in
        let index : index_of z w'.state ≡ index_of z w.state =
          ap (λ m. or_zero 0 (lookup z m)) indices ∙ ap (or_zero 0) kept ∙ ap (index_of z) same in
        rw (f, index) (omega arith)
    | inr (config, f) ↦
        let (c, ep, found, joined, ip, index) =
          generate_service-address project_networks packages sources service project_volumes w e z
            config f a in
        rw f index
  ]

  advance :
      (z : Text) {ss : List ServiceConfig} {w w' : World}
      → Generates w ss w'
      → All (λ service. AreApart project_networks service.networks) ss
      → index_of z w.state < 256
      → index_of z w'.state ≡ (index_of z w.state + users z ss) % 256
  advance z (finished w) a lt = omega (arith, lt)
  advance z (next service ss w w' w'' e g) a lt =
      let here = advance_one z service w w' e a.0 lt in
      omega (arith, here, advance z g a.1 (omega (arith, here)))

  -- Two services of a project that list a network under one name of the YAML file get different
  -- addresses in it, if the index of this name is a byte at the start, nothing happens between them but
  -- that further services of the project are generated, fewer than 255 of these list this name, and no
  -- service among all of them lists one network of the project under two names. (Two services that list
  -- the network under different names of the file are not compared: each name has its own index.)
  pub addresses_differ :
      (a b : ServiceConfig) (ss : List ServiceConfig) (w₀ w₁ w₂ w₃ : World) (name_in_yaml : Text)
      (config config' : Option ServiceNetworkConfig)
      → generate_service packages sources a project_networks project_volumes w₀ ≡ (ok tt, w₁)
      → Generates w₁ ss w₂
      → generate_service packages sources b project_networks project_volumes w₂ ≡ (ok tt, w₃)
      → lookup name_in_yaml a.networks ≡ some config
      → lookup name_in_yaml b.networks ≡ some config'
      → All (λ service. AreApart project_networks service.networks) (a ∷ b ∷ ss)
      → users name_in_yaml ss < 255
      → index_of name_in_yaml w₀.state < 256
      → let network = name_of project_networks name_in_yaml in
        (first last : Container) × (ep ep' : Endpoint) × (lookup a.container_name
            w₁.state.containers
          ≡ some first)
        × (in_network first.id (lookup network w₁.state.networks) ≡ some ep)
        × (lookup b.container_name w₃.state.containers ≡ some last)
        × (in_network last.id (lookup network w₃.state.networks) ≡ some ep')
        × (ep.ipv4_address ≢ ep'.ipv4_address)
  addresses_differ a b ss w₀ w₁ w₂ w₃ z config config' e g e' f f' apart few lt =
      let network = name_of project_networks z in
      let (first, ep, found, joined, ip, index) =
        generate_service-address project_networks packages sources a project_volumes w₀ e z config f
          apart.0 in
      let (last, ep', found', joined', ip', index') =
        generate_service-address project_networks packages sources b project_volumes w₂ e' z config'
          f' apart.1.0 in
      let later = advance z g apart.1.1 (omega (arith, index)) in
      let subnet = subnets_kept network g ∙ subnet_kept network a w₀ w₁ e in
      let same_net : ep'.ipv4_address
          ≡ ip_address_of (subnet_of network w₀.state) (index_of z w₂.state) =
        ip' ∙ ap (λ n. ip_address_of n (index_of z w₂.state)) subnet in
      (
        first,
        last,
        ep,
        ep',
        found,
        joined,
        found',
        joined',
        λ same.
            let equal =
              ip_address_of-injective (subnet_of network w₀.state) (index_of z w₀.state)
                (index_of z w₂.state) (omega arith) (omega (arith, later))
                (sym ip ∙ same ∙ same_net) in
            absurd (omega (arith, equal, later, index)),
      )
