-- ===== src/Docker/Examples.antt =====
-- A small state of the Docker mock, and the theorems about docker/ at it.
mod Projects
mod Commands
mod Generated
mod Listings
use osha.Base.{
  ℕ, ◌+◌, ◌≡◌, refl, true, false, ◌&&◌, List, [], ◌∷◌, none, some, Text, text_eq, text_beq, bytes,
  lookup, keys, ok, count, if◌then◌else◌,
}
use osha.Docker.Objects.{Container, Volume, Network, NetworkSettings}
use osha.Docker.{State, Codecs, new_state, clone_state}
use osha.Docker.Client.{Engine, container_remove, network_remove}
use osha.Docker.Compose.Types.{NetworkConfig}
use osha.Docker.Generation.{generate_network}
use osha.Docker.Manager.{DockerMockManager, take_snapshot, revert_to_snapshot}
use osha.Docker.Cloning.{IsExportable, observe, clone_state_lem, revert_to_snapshot-take_snapshot}
use osha.Docker.Subnets.{is_bridge}
use osha.Docker.Subnets.Pool.{values}
use osha.Docker.Calls.{
  ManagerCall, on_state, snapshot, revert, new_mock, compose_up, compose_down, remove_network,
  remove_container, add_container, stop_container, run_all, run_all_lem,
}
use osha.Docker.Examples.Projects.{packages, sources, tools, config}
use osha.Docker.Generation.World.{World}
use osha.Docker.Networks.{listed, in_network, container_remove_lem, network_remove-generate_network}

abbrev network : Network
network = record {
  name = bytes "net";
  id = bytes "n1";
  created = bytes "";
  scope = bytes "local";
  driver = bytes "bridge";
  enable_ipv6 = false;
  ipam_driver = bytes "default";
  subnet = bytes "172.17.0.0/16";
  gateway = bytes "172.17.0.1";
  internal = false;
  attachable = true;
  containers =
      (
        bytes "c1",
        record {
          name = bytes "node";
          endpoint_id = bytes "e1";
          mac_address = bytes "02:42:ac:11:00:02";
          ipv4_address = bytes "172.17.0.2";
        },
      )
      ∷ [];
  labels = [];
}

abbrev settings : NetworkSettings
settings = record {
  sandbox_id = bytes "";
  sandbox_key = bytes "";
  ports = [];
  networks =
      (
        bytes "net",
        record {
          aliases = [];
          mac_address = bytes "";
          network_id = bytes "n1";
          endpoint_id = bytes "e1";
          gateway = bytes "";
          ip_address = bytes "";
          ip_prefix_len = 16;
          dns_names = [];
        },
      )
      ∷ [];
}

abbrev pub container : Container
container = record {
  id = bytes "c1";
  name = bytes "node";
  created = bytes "";
  path = bytes "run";
  args = [];
  state = none;
  image = bytes "sha256:0";
  resolv_conf_path = bytes "";
  hostname_path = bytes "";
  hosts_path = bytes "";
  log_path = bytes "";
  driver = bytes "overlay2";
  platform = bytes "linux";
  host_config = none;
  size_rw = none;
  size_root_fs = some 0;
  mounts = [];
  config = none;
  network_settings = some settings;
}

abbrev volume : Volume
volume = record {
  created_at = bytes "";
  driver = bytes "local";
  labels = [];
  mountpoint = bytes "/data";
  name = bytes "data";
  scope = bytes "local";
  options = [];
  usage_size = none;
}

abbrev state : State
state = record {
  containers = (bytes "node", container) ∷ [];
  volumes = (bytes "data", volume) ∷ [];
  networks = (bytes "net", network) ∷ [];
  available_subnets = 18 ∷ 19 ∷ [];
  used_subnets = (bytes "net", 17) ∷ [];
  network_indices = (bytes "net", 3) ∷ [];
  service_hashes = (bytes "node", bytes "h") ∷ [];
}

container_remove_lem_example :
    (s' : State) × (container_remove (bytes "node") state ≡ ok s')
    × ((other : Text)
        → lookup other s'.containers
          ≡ (if text_beq (bytes "node") other then none else lookup other state.containers))
    × ((id name : Text)
        → in_network id (lookup name s'.networks) ≡ (
            if listed name (keys settings.networks) && text_beq (bytes "c1") id
            then none
            else in_network id (lookup name state.networks)))
unfolding lookup text_beq
container_remove_lem_example =
    container_remove_lem (bytes "node") container settings state refl refl

network_remove-generate_network_example :
    (made removed : State) × (generate_network config
        (bytes "b")
        (bytes "p")
        (bytes "n2")
        (bytes "now")
        state
      ≡ ok made)
    × (network_remove (bytes "second") made ≡ ok removed)
    × (removed.available_subnets ≡ 19 ∷ 18 ∷ [])
    × ((name : Text) → lookup name removed.networks ≡ lookup name state.networks)
    × ((name : Text) → lookup name removed.used_subnets ≡ lookup name state.used_subnets)
unfolding lookup text_beq
network_remove-generate_network_example =
    network_remove-generate_network config (bytes "b") (bytes "p") (bytes "n2") (bytes "now") 18
      (19 ∷ []) state refl refl refl

-- Codecs that know one object each.
abbrev pub codecs : Codecs
codecs = record {
  containers = record { marshal = λ _. some (bytes "c"); unmarshal = λ _. some container };
  volumes = record { marshal = λ _. some (bytes "v"); unmarshal = λ _. some volume };
  networks = record { marshal = λ _. some (bytes "n"); unmarshal = λ _. some network };
}

-- The second removal fails: the network is gone.
abbrev calls : List ManagerCall
calls =
    snapshot (bytes "new")
    ∷ on_state (compose_up (bytes "p") [])
    ∷ on_state (add_container container)
    ∷ on_state (stop_container (bytes "other"))
    ∷ on_state (compose_down (bytes "p") [])
    ∷ on_state (remove_network (bytes "second"))
    ∷ on_state (remove_container (bytes "node"))
    ∷ revert (bytes "new")
    ∷ []

run_all_lem_example :
    let s = (run_all packages sources tools codecs calls (new_mock 0 0)).manager.state in
    ((i : ℕ)
      → count i s.available_subnets + count i (values s.used_subnets)
        ≡ (if is_bridge i then 1 else 0))
    × ((name other : Text) (i : ℕ)
        → lookup name s.used_subnets ≡ some i
        → (is_bridge i ≡ true) × (lookup other s.used_subnets ≡ some i → name ≡ other))
    × ((name : Text) → lookup name s.networks ≡ none → lookup name s.used_subnets ≡ none)
run_all_lem_example = run_all_lem packages sources tools codecs calls 0 0

pub state-IsExportable : IsExportable codecs state
state-IsExportable = record {
  of_containers = ((bytes "c", refl, refl), tt);
  of_volumes = ((bytes "v", refl, refl), tt);
  of_networks = ((bytes "n", refl, refl), tt);
}

abbrev pub docker : DockerMockManager
docker = record { state = state; snapshots = [] }

revert_to_snapshot-take_snapshot_example :
    (taken : DockerMockManager) × (take_snapshot codecs (bytes "base") docker ≡ ok taken)
    × ((later : DockerMockManager)
        → lookup (bytes "base") later.snapshots ≡ lookup (bytes "base") taken.snapshots
        → (reverted : DockerMockManager) × (revert_to_snapshot codecs (bytes "base") later
            ≡ ok reverted)
          × (observe reverted.state ≡ record (observe state) { service_hashes = λ n. none })
          × (reverted.snapshots ≡ later.snapshots))
revert_to_snapshot-take_snapshot_example =
    revert_to_snapshot-take_snapshot codecs (bytes "base") docker state-IsExportable
