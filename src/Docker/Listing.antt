-- ===== src/Docker/Listing.antt =====
-- docker/client.go: the listings `ContainerList` and `DiskUsage`. Go leaves the order of the maps open;
-- the model goes through the lists that stand for them from the front.
pub mod Ports
use osha.Base.{
  ℕ, ◌%◌, Bool, true, false, ◌||◌, List, [], ◌∷◌, ◌++◌, Option, none, some, Text, bytes, text_eq,
  Dict, Outcome, ok, fail, panic, ◌>>=◌, if◌then◌else◌,
}
use osha.Go.Ints.{parse_int_0}
use osha.Go.Strings.{join}
use osha.Docker.{State, DockerError, bad_time, bad_host_port}
use osha.Docker.Client.{Engine, EngineState, get_state_from_container_state}
use osha.Docker.Objects.{
  Container, ContainerState, HostConfig, Config, NetworkSettings, EndpointSettings, MountPoint,
  PortBinding, PortMap, Volume,
}

-- types.Port and types.Container
pub record Port : Type 0 where
  pub ip : Text
  pub private_port : ℕ
  pub public_port : ℕ
  pub type : Text

pub record ContainerSummary : Type 0 where
  pub id : Text
  pub names : List Text
  pub image : Text
  pub image_id : Text
  pub command : Text
  pub created : ℕ
  pub ports : List Port
  pub size_rw : ℕ
  pub size_root_fs : ℕ
  pub labels : Dict Text Text
  pub state : Text
  pub status : Text
  pub network_mode : Text
  pub mounts : List MountPoint
  pub networks : Dict Text EndpointSettings

-- types.DiskUsage
pub record DiskUsage : Type 0 where
  pub containers : List ContainerSummary
  pub volumes : List Volume

-- What the listings take from other packages: the engine with its method `StateString`, the methods
-- `Int` and `Proto` of nat.Port, and `Unix` of time.Time.
pub record Views (Time : Type 0) : Type 0 where
  pub engine : Engine Time
  pub state_name : EngineState Time → Text
  pub port_int : Text → ℕ
  pub port_proto : Text → Text
  pub unix : Time → ℕ

-- A pointer that is read.
abbrev pub deref : {A : Type 0} → Option A → Outcome DockerError A
deref none = panic
deref (some a) = ok a

module _ {Time : Type 0} (views : Views Time) where
  unfoldable pub bindings_of : Text → List PortBinding → Outcome DockerError (List Port)
  bindings_of port [] = ok []
  bindings_of port (b ∷ bs) = elim (parse_int_0 16 b.host_port) [
    | fail _ ↦ fail (bad_host_port b.host_port)
    | panic ↦ panic
    | ok public_port ↦ do
      rest ← bindings_of port bs
      ok (
          (record {
            ip = b.host_ip;
            private_port = views.port_int port % 65536;
            public_port = public_port % 65536;
            type = views.port_proto port;
          })
          ∷ rest)
  ]

  unfoldable pub ports_of : PortMap → Outcome DockerError (List Port)
  unfolding bindings_of
  ports_of [] = ok []
  ports_of ((port, bs) ∷ m) = do first ← bindings_of port bs; rest ← ports_of m; ok (first ++ rest)

  pub parse_created : Text → Outcome DockerError Time
  parse_created created = elim (views.engine.parse_time created) [
    | none ↦ fail (bad_time created)
    | some t ↦ ok t
  ]

  unfoldable pub convert_container_json_to_container :
      Container → Outcome DockerError ContainerSummary
  unfolding ports_of parse_created get_state_from_container_state
  convert_container_json_to_container c = do
    created ← parse_created c.created
    settings ← deref c.network_settings
    ports ← ports_of settings.ports
    container_state ← deref c.state
    state ← get_state_from_container_state views.engine container_state
    config ← deref c.config
    size_rw ← deref c.size_rw
    size_root_fs ← deref c.size_root_fs
    host_config ← deref c.host_config
    ok (record {
      id = c.id;
      names = c.name ∷ [];
      image = config.image;
      image_id = c.image;
      command = c.path ++ (bytes " " ++ join (bytes " ") c.args);
      created = views.unix created;
      ports = ports;
      size_rw = size_rw;
      size_root_fs = size_root_fs;
      labels = config.labels;
      state = views.state_name state;
      status = views.engine.state_string state;
      network_mode = host_config.network_mode;
      mounts = c.mounts;
      networks = settings.networks;
    })

  -- `options.All || containerJson.State.Running`
  is_listed : Bool → Container → Outcome DockerError Bool
  is_listed true c = ok true
  is_listed false c = do state ← deref c.state; ok state.running

  -- What a round of the loop adds to the list.
  pub listing : Bool → Container → Outcome DockerError (List ContainerSummary)
  listing false c = ok []
  listing true c = do summary ← convert_container_json_to_container c; ok (summary ∷ [])

  unfoldable pub list_containers :
      Bool → Dict Text Container → Outcome DockerError (List ContainerSummary)
  unfolding is_listed listing convert_container_json_to_container
  list_containers every [] = ok []
  list_containers every ((_, c) ∷ m) = do
    listed ← is_listed every c
    first ← listing listed c
    rest ← list_containers every m
    ok (first ++ rest)

  unfoldable pub container_list : Bool → State → Outcome DockerError (List ContainerSummary)
  unfolding list_containers
  container_list every s = list_containers every s.containers

  volumes_of : Dict Text Volume → List Volume
  volumes_of [] = []
  volumes_of ((_, v) ∷ m) = v ∷ volumes_of m

  -- Its loop over the containers is that of a list of all of them.
  unfoldable pub disk_usage : State → Outcome DockerError DiskUsage
  unfolding list_containers volumes_of
  disk_usage s = do
    containers ← list_containers true s.containers
    ok (record { containers = containers; volumes = volumes_of s.volumes })
