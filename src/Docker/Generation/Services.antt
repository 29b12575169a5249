-- ===== src/Docker/Generation/Services.antt =====
-- docker/generation.go, `generateService`: a container from the service of a compose project.
use osha.Base.{
  ℕ, ◌+◌, ◌%◌, false, [], ◌∷◌, ◌++◌, Option, none, some, Text, bytes, text_eq, text_beq, Dict,
  lookup, insert, take, or_zero, if◌then◌else◌,
}
use osha.Go.Hex.{format_hex_2}
use osha.Go.Strconv.{format_uint}
use osha.Go.Strings.{join, trim_prefix}
use osha.Docker.{State}
use osha.Docker.Client.{get_container_state_from_state}
use osha.Docker.Compose.Types.{NetworkConfig, VolumeConfig, ServiceConfig, ServiceNetworkConfig}
use osha.Docker.Generation.Bindings.{Parts, make_parts}
use osha.Docker.Generation.Settings.{Packages, retry_count, make_host_config, make_config}
use osha.Docker.Generation.World.{
  Sources, Action, pure, lift, gets, deref, modify, ◌>>=◌, ◌>>◌, create_random_id, time_now,
}
use osha.Docker.Objects.{Container, ContainerState, Endpoint, EndpointSettings, Network}

-- The zero value of compose.NetworkConfig.
abbrev pub no_network : NetworkConfig
no_network = record {
  name = [];
  enable_ipv6 = none;
  internal = false;
  attachable = false;
  external = false;
}

abbrev pub project_network : Dict Text NetworkConfig → Text → NetworkConfig
project_network networks name = or_zero no_network (lookup name networks)

-- The settings that a service has on a network, or the default ones.
unfoldable pub network_settings_of :
    ServiceConfig → ℕ → ℕ → Option ServiceNetworkConfig → ServiceNetworkConfig
network_settings_of service subnet index (some config) = config
network_settings_of service subnet index none = record {
  aliases = service.container_name ∷ service.name ∷ [];
  mac_address = bytes "02:42:ac:" ++ (format_hex_2 subnet ++ (bytes ":00:" ++ format_hex_2 index));
}

unfoldable pub ip_address_of : ℕ → ℕ → Text
ip_address_of subnet index =
    bytes "172." ++ (format_uint subnet ++ (bytes ".0." ++ format_uint index))

unfoldable pub make_endpoint :
    ServiceConfig → Option ServiceNetworkConfig → Network → ℕ → ℕ → Text → EndpointSettings
unfolding network_settings_of ip_address_of
make_endpoint service config resource subnet index endpoint_id =
    let settings = network_settings_of service subnet index config in
    record {
      aliases = settings.aliases;
      mac_address = settings.mac_address;
      network_id = resource.id;
      endpoint_id = endpoint_id;
      gateway = resource.gateway;
      ip_address = ip_address_of subnet index;
      ip_prefix_len = 16;
      dns_names = [];
    }

-- The loop over the containers' networks that completes their DNS names.
unfoldable pub add_dns_names : Text → Dict Text EndpointSettings → Dict Text EndpointSettings
add_dns_names hostname [] = []
add_dns_names hostname ((name, e) ∷ m) =
    (name, record e { dns_names = e.dns_names ++ (e.aliases ++ hostname ∷ []) })
    ∷ add_dns_names hostname m

-- The name of the first network of the service that is not external, or nothing.
unfoldable pub first_own_network :
    Dict Text NetworkConfig → Dict Text (Option ServiceNetworkConfig) → Text
first_own_network project_networks [] = []
first_own_network project_networks ((name, _) ∷ m) =
    let rest = first_own_network project_networks m in
    if (project_network project_networks name).external
    then rest
    else (project_network project_networks name).name

unfoldable pub endpoint_resource : Text → EndpointSettings → Endpoint
endpoint_resource name e = record {
  name = trim_prefix (bytes "/") name;
  endpoint_id = e.endpoint_id;
  mac_address = e.mac_address;
  ipv4_address = e.ip_address;
}

-- The last loop: the container is entered in its networks.
unfoldable pub enter_networks :
    Text → Text → Dict Text EndpointSettings → Dict Text Network → Option (Dict Text Network)
unfolding endpoint_resource
enter_networks id name [] networks = some networks
enter_networks id name ((net_name, e) ∷ m) networks = elim (lookup net_name networks) [
  | none ↦ none
  | some n ↦ enter_networks id name m (
      insert net_name (record n { containers = insert id (endpoint_resource name e) n.containers })
        networks)
]

module _ {Time : Type 0} (packages : Packages Time) (sources : Sources Time) where
  -- One round of the loop over the service's networks.
  unfoldable pub join_network :
      ServiceConfig
      → Dict Text NetworkConfig
      → Text
      → Option ServiceNetworkConfig
      → Dict Text EndpointSettings
      → Action (Dict Text EndpointSettings)
  unfolding make_endpoint create_random_id
  join_network service project_networks name_in_yaml config networks = do
    let name = (project_network project_networks name_in_yaml).name
    found ← gets (λ (s : State). lookup name s.networks)
    resource ← deref found
    subnet ← gets (λ (s : State). or_zero 0 (lookup name s.used_subnets))
    index ← gets (λ (s : State). or_zero 0 (lookup name_in_yaml s.network_indices))
    endpoint_id ← create_random_id sources
    modify (λ s. record s {
      network_indices = insert name_in_yaml ((index + 1) % 256) s.network_indices;
    })
    pure (insert name (make_endpoint service config resource subnet index endpoint_id) networks)

  unfoldable pub join_networks :
      ServiceConfig
      → Dict Text NetworkConfig
      → Dict Text (Option ServiceNetworkConfig)
      → Dict Text EndpointSettings
      → Action (Dict Text EndpointSettings)
  unfolding join_network
  join_networks service project_networks [] networks = pure networks
  join_networks service project_networks ((name_in_yaml, config) ∷ m) networks =
      join_network service project_networks name_in_yaml config networks
      >>= join_networks service project_networks m

  -- The struct of the container, with the fields that are completed behind it.
  unfoldable pub make_container :
      ServiceConfig
      → Dict Text NetworkConfig
      → ContainerState
      → Parts
      → ℕ
      → Dict Text EndpointSettings
      → Text
      → Text
      → Text
      → Text
      → Container
  unfolding make_host_config make_config add_dns_names first_own_network
  make_container service project_networks state parts retries networks id image sandbox created =
      let hostname = if text_beq service.hostname [] then take 12 id else service.hostname in
      let network_mode =
        if text_beq service.network_mode []
        then first_own_network project_networks service.networks
        else service.network_mode in
      record {
        id = id;
        created = created;
        path = join (bytes " ") service.entrypoint;
        args = service.command;
        state = some state;
        image = bytes "sha256:" ++ image;
        resolv_conf_path = bytes "/var/lib/docker/containers/" ++ (id ++ bytes "/resolv.conf");
        hostname_path = bytes "/var/lib/docker/containers/" ++ (id ++ bytes "/hostname");
        hosts_path = bytes "/var/lib/docker/containers/" ++ (id ++ bytes "/hosts");
        log_path =
            bytes "/var/lib/docker/containers/" ++ (id ++ (bytes "/" ++ (id ++ bytes "-json.log")));
        name = bytes "/" ++ service.container_name;
        driver = bytes "overlay2";
        platform = bytes "linux";
        host_config =
            some
              (make_host_config packages service parts.mounts parts.port_maps network_mode retries);
        size_rw = some 0;
        size_root_fs = some 0;
        mounts = parts.mounts.container_mounts;
        config = some (make_config packages service hostname parts.env parts.port_maps);
        network_settings = some (record {
          sandbox_id = sandbox;
          sandbox_key = bytes "/var/run/docker/netns/" ++ take 12 sandbox;
          ports = parts.port_maps.ns_ports;
          networks = add_dns_names hostname networks;
        });
      }

  -- The container is stored and entered in its networks.
  unfoldable pub store_container :
      ServiceConfig → Container → Dict Text EndpointSettings → Action (Unit {0})
  unfolding enter_networks
  store_container service container networks = do
    entered ← gets (λ s. enter_networks container.id container.name networks s.networks)
    updated ← deref entered
    modify (λ s. record s {
      containers = insert service.container_name container s.containers;
      networks = updated;
    })

  -- What follows the loop over the service's networks.
  unfoldable pub complete_service :
      ServiceConfig
      → Dict Text NetworkConfig
      → ContainerState
      → Parts
      → Dict Text EndpointSettings
      → Action (Unit {0})
  unfolding make_container store_container retry_count time_now create_random_id
  complete_service service project_networks state parts networks = do
    id ← create_random_id sources
    image ← create_random_id sources
    sandbox ← create_random_id sources
    created ← time_now sources
    retries ← lift (retry_count service.health_check)
    store_container service
        (make_container service project_networks state parts retries networks id image sandbox
          (packages.engine.format_time created))
        networks

  unfoldable pub generate_service :
      ServiceConfig → Dict Text NetworkConfig → Dict Text VolumeConfig → Action (Unit {0})
  unfolding make_parts join_networks complete_service time_now get_container_state_from_state
  generate_service service project_networks project_volumes = do
    started ← time_now sources
    let state =
        get_container_state_from_state packages.engine
          (packages.engine.set_running started packages.new_state)
    volumes ← gets (λ s. s.volumes)
    parts ←
        lift (make_parts packages.volume_string packages.new_port service project_volumes volumes)
    networks ← join_networks service project_networks service.networks []
    complete_service service project_networks state parts networks
