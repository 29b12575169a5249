-- ===== src/Docker/Generation.antt =====
-- docker/generation.go: the networks and the volumes of a compose project. The random id and the
-- time of a call are arguments. The services are in Generation/Services.
pub mod World
pub mod Bindings
pub mod Settings
pub mod Services
pub mod Joining
pub mod Listed
pub mod Running
pub mod Effects
pub mod Addresses
use osha.Base.{
  ℕ, Bool, false, [], ◌∷◌, ◌++◌, Option, none, some, Text, bytes, text_eq, Dict, lookup, insert,
  Outcome, ok, fail,
}
use osha.Go.Strconv.{format_uint}
use osha.Docker.Compose.Types.{NetworkConfig, VolumeConfig}
use osha.Docker.Objects.{Network}
use osha.Docker.{State, DockerError, too_many_networks}

-- `if network.EnableIPv6 != nil`
or_else : Option Bool → Bool → Bool
or_else none b = b
or_else (some c) b = c

update_network : NetworkConfig → Network → Network
unfolding or_else
update_network config n = record n {
  enable_ipv6 = or_else config.enable_ipv6 n.enable_ipv6;
  internal = config.internal;
  attachable = config.attachable;
}

unfoldable pub new_network : NetworkConfig → Text → Text → ℕ → Text → Text → Network
unfolding or_else
new_network config name_in_yaml project_name subnet id now = record {
  name = config.name;
  id = id;
  created = now;
  scope = bytes "local";
  driver = bytes "bridge";
  enable_ipv6 = or_else config.enable_ipv6 false;
  ipam_driver = bytes "default";
  subnet = bytes "172." ++ format_uint subnet ++ bytes ".0.0/16";
  gateway = bytes "172." ++ format_uint subnet ++ bytes ".0.1";
  internal = config.internal;
  attachable = config.attachable;
  containers = [];
  labels =
      (bytes "com.docker.compose.network", name_in_yaml)
      ∷ (bytes "com.docker.compose.project", project_name)
      ∷ (bytes "com.docker.compose.version", bytes "0.0.1")
      ∷ [];
}

-- The new network takes the first of the available subnets.
unfoldable pub generate_network :
    NetworkConfig → Text → Text → Text → Text → State → Outcome DockerError State
unfolding update_network new_network
generate_network config name_in_yaml project_name id now s = elim (lookup config.name s.networks) [
  | some n ↦ ok (record s { networks = insert config.name (update_network config n) s.networks })
  | none ↦ elim s.available_subnets [
    | [] ↦ fail too_many_networks
    | subnet ∷ rest ↦ ok (record s {
      available_subnets = rest;
      used_subnets = insert config.name subnet s.used_subnets;
      networks =
          insert config.name (new_network config name_in_yaml project_name subnet id now)
            s.networks;
      network_indices = insert name_in_yaml 2 s.network_indices;
    })
  ]
]

unfoldable pub generate_volume : VolumeConfig → Text → Text → Text → State → State
generate_volume config name_in_yaml project_name now s = elim (lookup config.name s.volumes) [
  | some v ↦ record s {
    volumes = insert config.name (record v { options = config.driver_opts }) s.volumes;
  }
  | none ↦ record s {
    volumes =
        insert config.name
          (record {
            created_at = now;
            driver = bytes "local";
            labels =
                (bytes "com.docker.compose.project", project_name)
                ∷ (bytes "com.docker.compose.version", bytes "0.0.1")
                ∷ (bytes "com.docker.compose.volume", name_in_yaml)
                ∷ [];
            mountpoint = bytes "/var/lib/docker/volumes/" ++ config.name ++ bytes "/_data";
            name = config.name;
            scope = bytes "local";
            options = config.driver_opts;
            usage_size = none;
          })
          s.volumes;
  }
]
