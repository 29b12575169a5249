-- ===== src/Docker/Compose/Types.antt =====
-- The types of compose-go that docker/compose.go and docker/generation.go read, with the fields that
-- they read. `none` is a nil pointer. A signed number is kept as the number that its 64 bits spell,
-- and a float32 as its bits.
use osha.Base.{ℕ, Bool, List, Option, Text, Dict}

pub record NetworkConfig : Type 0 where
  pub name : Text
  pub enable_ipv6 : Option Bool
  pub internal : Bool
  pub attachable : Bool
  pub external : Bool

pub record VolumeConfig : Type 0 where
  pub name : Text
  pub driver_opts : Dict Text Text

-- compose.ServiceVolumeConfig; `propagation` is that of its `Bind`.
pub record ServiceVolumeConfig : Type 0 where
  pub type : Text
  pub source : Text
  pub target : Text
  pub read_only : Bool
  pub propagation : Option Text

pub record ServicePortConfig : Type 0 where
  pub target : ℕ
  pub protocol : Text
  pub host_ip : Text
  pub published : Text

pub record ServiceNetworkConfig : Type 0 where
  pub aliases : List Text
  pub mac_address : Text

pub record HealthCheckConfig : Type 0 where
  pub retries : Option ℕ

-- compose.WeightDevice and compose.ThrottleDevice
pub record WeightConfig : Type 0 where
  pub path : Text
  pub weight : ℕ

pub record ThrottleConfig : Type 0 where
  pub path : Text
  pub rate : ℕ

pub record BlkioConfig : Type 0 where
  pub weight : ℕ
  pub weight_device : List WeightConfig
  pub device_read_bps : List ThrottleConfig
  pub device_read_iops : List ThrottleConfig
  pub device_write_bps : List ThrottleConfig
  pub device_write_iops : List ThrottleConfig

pub record UlimitsConfig : Type 0 where
  pub hard : ℕ
  pub soft : ℕ

pub record ServiceConfig : Type 0 where
  pub name : Text
  pub annotations : Dict Text Text
  pub blkio_config : Option BlkioConfig
  pub cap_add : List Text
  pub cap_drop : List Text
  pub cgroup_parent : Text
  pub cgroup : Text
  pub cpu_count : ℕ
  pub cpu_percent : ℕ
  pub cpu_period : ℕ
  pub cpu_quota : ℕ
  pub cpu_rt_period : ℕ
  pub cpu_rt_runtime : ℕ
  pub cpu_set : Text
  pub cpu_shares : ℕ
  pub command : List Text
  pub container_name : Text
  pub device_cgroup_rules : List Text
  pub dns : List Text
  pub dns_opts : List Text
  pub dns_search : List Text
  pub domain_name : Text
  pub entrypoint : List Text
  pub environment : Dict Text (Option Text)
  pub extra_hosts : Option (Dict Text (List Text))
  pub group_add : List Text
  pub hostname : Text
  pub health_check : Option HealthCheckConfig
  pub image : Text
  pub isolation : Text
  pub links : List Text
  pub mac_address : Text
  pub mem_limit : ℕ
  pub mem_reservation : ℕ
  pub mem_swap_limit : ℕ
  pub mem_swappiness : ℕ
  pub network_mode : Text
  pub networks : Dict Text (Option ServiceNetworkConfig)
  pub oom_kill_disable : Bool
  pub oom_score_adj : ℕ
  pub pids_limit : ℕ
  pub ports : List ServicePortConfig
  pub privileged : Bool
  pub read_only : Bool
  pub restart : Text
  pub runtime : Text
  pub security_opt : List Text
  pub shm_size : ℕ
  pub stdin_open : Bool
  pub stop_grace_period : Option ℕ
  pub stop_signal : Text
  pub storage_opt : Dict Text Text
  pub sysctls : Dict Text Text
  pub tty : Bool
  pub ulimits : Dict Text UlimitsConfig
  pub user : Text
  pub userns_mode : Text
  pub uts : Text
  pub volume_driver : Text
  pub volumes : List ServiceVolumeConfig
  pub volumes_from : List Text
  pub working_dir : Text

-- compose.Project. Its maps are keyed by the names in the YAML file.
pub record Project : Type 0 where
  pub services : Dict Text ServiceConfig
  pub networks : Dict Text NetworkConfig
  pub volumes : Dict Text VolumeConfig
