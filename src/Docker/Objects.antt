-- ===== src/Docker/Objects.antt =====
-- The objects of the Docker packages that docker/ keeps: containers, volumes and networks, with the
-- fields that the source reads or sets to something other than Go's zero value. `none` is a nil
-- pointer. A pointer inside one of them is taken to be held by that object alone, so that objects
-- are kept by value. A signed number is kept as the number that its 64 bits spell.
use osha.Base.{ℕ, Bool, List, Option, Text, Dict}

-- types.ContainerState. Its times are texts in RFC 3339.
pub record ContainerState : Type 0 where
  pub status : Text
  pub running : Bool
  pub paused : Bool
  pub restarting : Bool
  pub oom_killed : Bool
  pub dead : Bool
  pub pid : ℕ
  pub exit_code : ℕ
  pub error : Text
  pub started_at : Text
  pub finished_at : Text
  pub health : Option Text

-- nat.PortBinding. A nat.Port is a text such as "80/tcp", and a nat.PortMap is a map of those.
pub record PortBinding : Type 0 where
  pub host_ip : Text
  pub host_port : Text

abbrev pub PortMap : Type 0
PortMap = Dict Text (List PortBinding)

abbrev pub PortSet : Type 0
PortSet = Dict Text (Unit {0})

-- types.MountPoint
pub record MountPoint : Type 0 where
  pub type : Text
  pub name : Text
  pub source : Text
  pub destination : Text
  pub driver : Text
  pub mode : Text
  pub rw : Bool
  pub propagation : Text

-- mount.Mount, whose volume options are the empty ones.
pub record Mount : Type 0 where
  pub type : Text
  pub source : Text
  pub target : Text

-- blkiodev.WeightDevice and blkiodev.ThrottleDevice
pub record WeightDevice : Type 0 where
  pub path : Text
  pub weight : ℕ

pub record ThrottleDevice : Type 0 where
  pub path : Text
  pub rate : ℕ

-- units.Ulimit
pub record Ulimit : Type 0 where
  pub name : Text
  pub hard : ℕ
  pub soft : ℕ

-- container.Resources
pub record Resources : Type 0 where
  pub cpu_shares : ℕ
  pub memory : ℕ
  pub cgroup_parent : Text
  pub cpu_period : ℕ
  pub cpu_quota : ℕ
  pub cpu_realtime_period : ℕ
  pub cpu_realtime_runtime : ℕ
  pub cpuset_cpus : Text
  pub cpuset_mems : Text
  pub device_cgroup_rules : List Text
  pub memory_reservation : ℕ
  pub memory_swap : ℕ
  pub memory_swappiness : Option ℕ
  pub oom_kill_disable : Option Bool
  pub pids_limit : Option ℕ
  pub ulimits : List Ulimit
  pub cpu_count : ℕ
  pub cpu_percent : ℕ
  pub blkio_weight : ℕ
  pub blkio_weight_device : List WeightDevice
  pub blkio_device_read_bps : List ThrottleDevice
  pub blkio_device_read_iops : List ThrottleDevice
  pub blkio_device_write_bps : List ThrottleDevice
  pub blkio_device_write_iops : List ThrottleDevice

-- container.HostConfig
pub record HostConfig : Type 0 where
  pub binds : List Text
  pub log_type : Text
  pub network_mode : Text
  pub port_bindings : PortMap
  pub restart_policy : Text
  pub maximum_retry_count : ℕ
  pub volume_driver : Text
  pub volumes_from : List Text
  pub annotations : Dict Text Text
  pub cap_add : List Text
  pub cap_drop : List Text
  pub cgroupns_mode : Text
  pub dns : List Text
  pub dns_options : List Text
  pub dns_search : List Text
  pub extra_hosts : List Text
  pub group_add : List Text
  pub ipc_mode : Text
  pub cgroup : Text
  pub links : List Text
  pub oom_score_adj : ℕ
  pub privileged : Bool
  pub readonly_rootfs : Bool
  pub security_opt : List Text
  pub storage_opt : Dict Text Text
  pub uts_mode : Text
  pub userns_mode : Text
  pub shm_size : ℕ
  pub sysctls : Dict Text Text
  pub runtime : Text
  pub isolation : Text
  pub resources : Resources
  pub mounts : List Mount
  pub masked_paths : List Text
  pub readonly_paths : List Text

-- container.Config
pub record Config : Type 0 where
  pub hostname : Text
  pub domainname : Text
  pub user : Text
  pub attach_stdout : Bool
  pub attach_stderr : Bool
  pub exposed_ports : PortSet
  pub tty : Bool
  pub open_stdin : Bool
  pub env : List Text
  pub cmd : List Text
  pub image : Text
  pub labels : Dict Text Text
  pub working_dir : Text
  pub entrypoint : List Text
  pub mac_address : Text
  pub stop_signal : Text
  pub stop_timeout : Option ℕ

-- network.EndpointSettings
pub record EndpointSettings : Type 0 where
  pub aliases : List Text
  pub mac_address : Text
  pub network_id : Text
  pub endpoint_id : Text
  pub gateway : Text
  pub ip_address : Text
  pub ip_prefix_len : ℕ
  pub dns_names : List Text

-- types.NetworkSettings
pub record NetworkSettings : Type 0 where
  pub sandbox_id : Text
  pub sandbox_key : Text
  pub ports : PortMap
  pub networks : Dict Text EndpointSettings

-- types.ContainerJSON, with its base.
pub record Container : Type 0 where
  pub id : Text
  pub created : Text
  pub path : Text
  pub args : List Text
  pub state : Option ContainerState
  pub image : Text
  pub resolv_conf_path : Text
  pub hostname_path : Text
  pub hosts_path : Text
  pub log_path : Text
  pub name : Text
  pub driver : Text
  pub platform : Text
  pub host_config : Option HostConfig
  pub size_rw : Option ℕ
  pub size_root_fs : Option ℕ
  pub mounts : List MountPoint
  pub config : Option Config
  pub network_settings : Option NetworkSettings

pub record Volume : Type 0 where
  pub created_at : Text
  pub driver : Text
  pub labels : Dict Text Text
  pub mountpoint : Text
  pub name : Text
  pub scope : Text
  pub options : Dict Text Text
  pub usage_size : Option ℕ

-- network.EndpointResource
pub record Endpoint : Type 0 where
  pub name : Text
  pub endpoint_id : Text
  pub mac_address : Text
  pub ipv4_address : Text

-- network.Inspect, with its one subnet and gateway.
pub record Network : Type 0 where
  pub name : Text
  pub id : Text
  pub created : Text
  pub scope : Text
  pub driver : Text
  pub enable_ipv6 : Bool
  pub ipam_driver : Text
  pub subnet : Text
  pub gateway : Text
  pub internal : Bool
  pub attachable : Bool
  pub containers : Dict Text Endpoint
  pub labels : Dict Text Text
