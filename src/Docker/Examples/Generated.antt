-- ===== src/Docker/Examples/Generated.antt =====
-- The service of the small project, generated by docker/generation.go in a network that holds an
-- endpoint of an older container.
use osha.Base.{
  ◌≡◌, ◌≢◌, refl, true, false, ◌&&◌, [], ◌∷◌, none, some, Text, text_eq, text_beq, bytes, lookup,
  insert, keys, or_zero, ok, fail, arith, if◌then◌else◌,
}
use osha.Docker.{State, network_in_use}
use osha.Docker.Client.{container_remove, network_remove}
use osha.Docker.Compose.Types.{ServiceConfig}
use osha.Docker.Examples.{container}
use osha.Docker.Examples.Projects.{packages, sources, service, project}
use osha.Docker.Generation.Addresses.Distinct.{finished, addresses_differ}
use osha.Docker.Generation.Effects.{
  entered_or, generate_service_lem, container_remove-generate_service, network_remove-regenerated,
}
use osha.Docker.Generation.Listed.{lists}
use osha.Docker.Generation.Services.{generate_service}
use osha.Docker.Generation.World.{World}
use osha.Go.Hex.{encode_to_string}
use osha.Docker.Networks.{in_network, listed}
use osha.Docker.Objects.{Container, Endpoint, Network, NetworkSettings}

abbrev old_endpoint : Endpoint
old_endpoint = record {
  name = bytes "/box";
  endpoint_id = bytes "e1";
  mac_address = bytes "02:42:ac:11:00:02";
  ipv4_address = bytes "172.17.0.0";
}

abbrev network : Network
network = record {
  name = bytes "second";
  id = bytes "n1";
  created = bytes "";
  scope = bytes "local";
  driver = bytes "bridge";
  enable_ipv6 = false;
  ipam_driver = bytes "default";
  subnet = bytes "172.17.0.0/16";
  gateway = bytes "172.17.0.1";
  internal = false;
  attachable = true;
  containers = (bytes "old", old_endpoint) ∷ [];
  labels = [];
}

abbrev pub before : World
before = record {
  state = record {
    containers = [];
    volumes = [];
    networks = (bytes "second", network) ∷ [];
    available_subnets = 18 ∷ [];
    used_subnets = (bytes "second", 17) ∷ [];
    network_indices = (bytes "lan", 1) ∷ [];
    service_hashes = [];
  };
  draws = 0;
  ticks = 0;
}

abbrev after : World
after = (generate_service packages sources service project.networks [] before).1

service_run : generate_service packages sources service project.networks [] before ≡ (ok tt, after)
unfolding generate_service lookup insert text_beq
service_run = refl

generate_service_lem_example :
    (c : Container) × (settings : NetworkSettings) × (c.network_settings ≡ some settings)
    × (c.name ≡ bytes "/box")
    × ((net : Text)
        → listed net (keys settings.networks) ≡ lists project.networks net service.networks)
    × ((name : Text)
        → lookup name after.state.containers
          ≡ (if text_beq (bytes "box") name then some c else lookup name before.state.containers))
    × ((id net : Text)
        → in_network id (lookup net after.state.networks) ≡ (
            if text_beq c.id id
            then entered_or c.name
                (lookup net settings.networks)
                (in_network id (lookup net before.state.networks))
            else in_network id (lookup net before.state.networks)))
    × (after.state ≡ record before.state {
      containers = after.state.containers;
      networks = after.state.networks;
      network_indices = after.state.network_indices;
    })
generate_service_lem_example =
    generate_service_lem packages sources service project.networks [] before service_run

container_remove-generate_service_example :
    (c : Container) × (settings : NetworkSettings) × (c.network_settings ≡ some settings)
    × (lookup (bytes "box") after.state.containers ≡ some c)
    × (s : State) × (container_remove (bytes "box") after.state ≡ ok s)
    × ((name : Text)
        → lookup name s.containers
          ≡ (if text_beq (bytes "box") name then none else lookup name before.state.containers))
    × ((id net : Text)
        → in_network id (lookup net s.networks) ≡ (
            if listed net (keys settings.networks) && text_beq c.id id
            then none
            else in_network id (lookup net before.state.networks)))
container_remove-generate_service_example =
    container_remove-generate_service packages sources service project.networks [] before
      service_run

-- What is stored under the name of a service's container.
abbrev stored : Text → State → Container
stored name s = or_zero container (lookup name s.containers)

old_endpoint-kept :
    in_network (bytes "old") (lookup (bytes "second") before.state.networks) ≡ some old_endpoint
unfolding lookup text_beq
old_endpoint-kept = refl

other_id : bytes "01" ≢ bytes "old"
other_id e = cc

network_remove-regenerated_example :
    (s : State) × (container_remove (bytes "box") after.state ≡ ok s)
    × (network_remove (bytes "second") s ≡ fail (network_in_use (bytes "second")))
unfolding generate_service lookup insert text_beq encode_to_string
network_remove-regenerated_example =
    network_remove-regenerated packages sources service project.networks [] before service_run
      (stored (bytes "box") after.state) (bytes "old") (bytes "second") old_endpoint refl other_id
      old_endpoint-kept

-- A second service on the network.
abbrev second : ServiceConfig
second = record service { name = bytes "peer"; container_name = bytes "box2" }

abbrev last : World
last = (generate_service packages sources second project.networks [] after).1

second_run : generate_service packages sources second project.networks [] after ≡ (ok tt, last)
unfolding generate_service lookup insert text_beq
second_run = refl

addresses_differ_example :
    (c c' : Container) × (ep ep' : Endpoint) × (lookup (bytes "box") after.state.containers
      ≡ some c)
    × (in_network c.id (lookup (bytes "second") after.state.networks) ≡ some ep)
    × (lookup (bytes "box2") last.state.containers ≡ some c')
    × (in_network c'.id (lookup (bytes "second") last.state.networks) ≡ some ep')
    × (ep.ipv4_address ≢ ep'.ipv4_address)
unfolding lookup text_beq
addresses_differ_example =
    addresses_differ packages sources project.networks [] service second [] before after after last
      (bytes "lan") none none service_run (finished after) second_run refl refl
      ((tt, tt), ((tt, tt), tt)) (omega arith) (omega arith)
