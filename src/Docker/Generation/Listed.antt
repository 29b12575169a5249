-- ===== src/Docker/Generation/Listed.antt =====
-- The networks that `generateService` of docker/generation.go joins: those that the service lists.
use osha.Base.{
  ◌≡◌, refl, sym, ◌∙◌, ap, inl, inr, Bool, false, ◌||◌, [], ◌∷◌, Option, Text, text_eq, text_beq,
  text_beq_iff, Dict, insert, keys, ok, Outcome, arith, Bool-cases,
}
use osha.Docker.{DockerError}
use osha.Docker.Compose.Types.{NetworkConfig, ServiceConfig, ServiceNetworkConfig}
use osha.Docker.Generation.Joining.{bind-ok, join_network-ok}
use osha.Docker.Generation.Services.{project_network, join_network, join_networks, add_dns_names}
use osha.Docker.Generation.Settings.{Packages}
use osha.Docker.Generation.World.{World, Sources}
use osha.Docker.Networks.{listed}
use osha.Docker.Objects.{EndpointSettings}

-- Whether one of a service's networks is the network of this name in the project.
abbrev pub lists : Dict Text NetworkConfig → Text → Dict Text (Option ServiceNetworkConfig) → Bool
lists project_networks net [] = false
lists project_networks net ((name_in_yaml, config) ∷ m) =
    text_beq (project_network project_networks name_in_yaml).name net
    || lists project_networks net m

or_false : (b : Bool) → (b || false) ≡ b
or_false b = ground arith

listed-insert :
    {V : Type 0} (net key : Text) (v : V) (m : Dict Text V)
    → listed net (keys (insert key v m)) ≡ (text_beq key net || listed net (keys m))
unfolding keys insert
listed-insert net key v [] = refl
listed-insert net key v ((other, x) ∷ m) = elim (Bool-cases (text_beq other key)) [
  | inl hit ↦ rw (hit, (text_beq_iff other key).0 hit) (ground arith)
  | inr miss ↦ rw (miss, listed-insert net key v m) (ground arith)
]

pub keys-dns :
    (hostname : Text) (m : Dict Text EndpointSettings) → keys (add_dns_names hostname m) ≡ keys m
unfolding keys add_dns_names
keys-dns hostname [] = refl
keys-dns hostname ((net, x) ∷ m) = ap (λ l. net ∷ l) (keys-dns hostname m)

module _ {Time : Type 0} (packages : Packages Time) (sources : Sources Time) where
  listed-join_networks :
      (service : ServiceConfig) (project_networks : Dict Text NetworkConfig) (net : Text)
      (m : Dict Text (Option ServiceNetworkConfig)) (networks : Dict Text EndpointSettings)
      (w : World) {all : Dict Text EndpointSettings} {w' : World}
      → join_networks packages sources service project_networks m networks w ≡ (ok all, w')
      → listed net (keys all) ≡ (lists project_networks net m || listed net (keys networks))
  unfolding join_networks
  listed-join_networks service project_networks net [] networks w e =
      let value = ap (λ (p : Outcome DockerError (Dict Text EndpointSettings) × World). p.0) e in
      let same : networks ≡ _ = cc value in ap (λ n. listed net (keys n)) (sym same)
  listed-join_networks service project_networks net ((y, config) ∷ m) networks w {all} {w'} e =
      let step = join_network packages sources service project_networks y config networks w in
      let (first, done, rest) =
        bind-ok (join_network packages sources service project_networks y config networks)
          (join_networks packages sources service project_networks m) w w' e in
      let (n, id, there, adds, moves) =
        join_network-ok packages sources service project_networks y config networks w
          (λ i. (done i, step.1)) in
      let name = (project_network project_networks y).name in
      let more = ap (λ n. listed net (keys n)) adds ∙ listed-insert net name _ networks in
      listed-join_networks service project_networks net m first step.1 rest ∙ rw more (ground arith)

  -- From none, the loop makes those that the service lists.
  pub listed_lem :
      (service : ServiceConfig) (project_networks : Dict Text NetworkConfig) (net : Text)
      (m : Dict Text (Option ServiceNetworkConfig)) (w : World) {all : Dict Text EndpointSettings}
      {w' : World}
      → join_networks packages sources service project_networks m [] w ≡ (ok all, w')
      → listed net (keys all) ≡ lists project_networks net m
  unfolding keys
  listed_lem service project_networks net m w e =
      listed-join_networks service project_networks net m [] w e ∙ or_false _
