-- ===== src/Docker/Generation/Bindings.antt =====
-- docker/generation.go, `generateService`: the mounts, the ports and the environment of a service.
use osha.Base.{
  not, List, [], ◌∷◌, ◌++◌, Option, none, some, Text, bytes, text_eq, text_beq, Dict, lookup,
  insert, Outcome, ok, fail, panic, ◌>>=◌, or_zero, if◌then◌else◌,
}
use osha.Go.Slices.{sort}
use osha.Go.Strconv.{format_uint}
use osha.Docker.{DockerError, unsupported_mount, bad_port}
use osha.Docker.Compose.Types.{VolumeConfig, ServiceConfig, ServiceVolumeConfig, ServicePortConfig}
use osha.Docker.Objects.{MountPoint, Mount, PortBinding, PortMap, PortSet, Volume}

-- The three lists that the loop over the volumes fills.
pub record Mounts : Type 0 where
  pub binds : List Text
  pub host_config_mounts : List Mount
  pub container_mounts : List MountPoint

abbrev pub no_mounts : Mounts
no_mounts = record { binds = []; host_config_mounts = []; container_mounts = [] }

-- `volume_string` is the method `String` of compose-go.
bind_mount :
    (ServiceVolumeConfig → Text) → ServiceVolumeConfig → Mounts → Outcome DockerError Mounts
bind_mount volume_string v m = elim v.propagation [
  | none ↦ panic
  | some propagation ↦ ok (record m {
    binds = m.binds ++ volume_string v ∷ [];
    container_mounts =
        m.container_mounts
        ++ (record {
          type = v.type;
          name = [];
          source = v.source;
          destination = v.target;
          driver = [];
          mode = if v.read_only then bytes "ro" else bytes "rw";
          rw = not v.read_only;
          propagation = if text_beq propagation [] then bytes "rprivate" else propagation;
        })
          ∷ [];
  })
]

-- The zero value of compose.VolumeConfig.
abbrev no_volume : VolumeConfig
no_volume = record { name = []; driver_opts = [] }

volume_mount :
    Dict Text VolumeConfig
    → Dict Text Volume
    → ServiceVolumeConfig
    → Mounts
    → Outcome DockerError Mounts
volume_mount project_volumes volumes v m =
    let project_volume = or_zero no_volume (lookup v.source project_volumes) in
    elim (lookup project_volume.name volumes) [
      | none ↦ panic
      | some resource ↦ ok (record m {
        container_mounts =
            m.container_mounts
            ++ (record {
              type = v.type;
              name = project_volume.name;
              source = resource.mountpoint;
              destination = v.target;
              driver = bytes "local";
              mode = bytes "z";
              rw = not v.read_only;
              propagation = [];
            })
              ∷ [];
        host_config_mounts =
            m.host_config_mounts
            ++ (record { type = v.type; source = project_volume.name; target = v.target }) ∷ [];
      })
    ]

module _ (volume_string : ServiceVolumeConfig → Text) (project_volumes : Dict Text VolumeConfig)
    (volumes : Dict Text Volume) where
  add_mount : ServiceVolumeConfig → Mounts → Outcome DockerError Mounts
  unfolding bind_mount volume_mount
  add_mount v m =
      if text_beq v.type (bytes "bind")
      then bind_mount volume_string v m
      else if text_beq v.type (bytes "volume")
      then volume_mount project_volumes volumes v m
      else fail (unsupported_mount v.type)

  unfoldable pub make_mounts : List ServiceVolumeConfig → Mounts → Outcome DockerError Mounts
  unfolding add_mount
  make_mounts [] m = ok m
  make_mounts (v ∷ vs) m = add_mount v m >>= make_mounts vs

-- The ports with their settings; a port that comes twice is in the list twice, and has the later
-- setting. `new_port` is `nat.NewPort`.
abbrev pub Ports : Type 0
Ports = List Text × Dict Text ServicePortConfig

unfoldable pub parse_ports :
    (Text → Text → Option Text) → List ServicePortConfig → Ports → Outcome DockerError Ports
parse_ports new_port [] (ports, service_ports) = ok (ports, service_ports)
parse_ports new_port (p ∷ ps) (ports, service_ports) =
    elim (new_port p.protocol (format_uint p.target)) [
      | none ↦ fail (bad_port (format_uint p.target))
      | some port ↦ parse_ports new_port ps (ports ++ port ∷ [], insert port p service_ports)
    ]

pub record PortMaps : Type 0 where
  pub port_bindings : PortMap
  pub exposed_ports : PortSet
  pub ns_ports : PortMap

abbrev pub no_port_maps : PortMaps
no_port_maps = record { port_bindings = []; exposed_ports = []; ns_ports = [] }

abbrev binding : Text → ServicePortConfig → PortBinding
binding ip p = record { host_ip = ip; host_port = p.published }

add_port : Text → ServicePortConfig → PortMaps → PortMaps
add_port port p m = record {
  port_bindings = insert port (binding p.host_ip p ∷ []) m.port_bindings;
  exposed_ports = insert port tt m.exposed_ports;
  ns_ports =
      insert port
        (if text_beq p.host_ip []
          then binding (bytes "0.0.0.0") p ∷ binding (bytes "::") p ∷ []
          else binding p.host_ip p ∷ [])
        m.ns_ports;
}

-- The zero value of compose.ServicePortConfig.
abbrev no_service_port : ServicePortConfig
no_service_port = record { target = 0; protocol = []; host_ip = []; published = [] }

unfoldable pub make_port_maps : Dict Text ServicePortConfig → List Text → PortMaps → PortMaps
unfolding add_port
make_port_maps service_ports [] m = m
make_port_maps service_ports (port ∷ ports) m =
    make_port_maps service_ports ports
      (add_port port (or_zero no_service_port (lookup port service_ports)) m)

-- The environment, before it is sorted: `*val` panics at a nil pointer.
unfoldable pub make_env : Dict Text (Option Text) → Outcome DockerError (List Text)
make_env [] = ok []
make_env ((key, none) ∷ environment) = panic
make_env ((key, some val) ∷ environment) = do
  env ← make_env environment
  ok ((key ++ b'=' ∷ val) ∷ env)

-- What is made of the service before its networks are joined.
pub record Parts : Type 0 where
  pub mounts : Mounts
  pub port_maps : PortMaps
  pub env : List Text

unfoldable pub make_parts :
    (ServiceVolumeConfig → Text)
    → (Text → Text → Option Text)
    → ServiceConfig
    → Dict Text VolumeConfig
    → Dict Text Volume
    → Outcome DockerError Parts
unfolding make_mounts parse_ports make_port_maps make_env
make_parts volume_string new_port service project_volumes volumes = do
  mounts ← make_mounts volume_string project_volumes volumes service.volumes no_mounts
  ports ← parse_ports new_port service.ports ([], [])
  env ← make_env service.environment
  ok (record {
    mounts = record mounts { binds = sort mounts.binds };
    port_maps = make_port_maps ports.1 (sort ports.0) no_port_maps;
    env = sort env;
  })
