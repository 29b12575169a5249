-- ===== src/Docker/Generation/Settings.antt =====
-- docker/generation.go, `generateService`: the settings of a container that come from its service
-- alone.
use osha.Base.{
  ℕ, ◌^◌, Bool, true, ◌&&◌, List, [], ◌∷◌, map, Option, none, some, Text, bytes, text_beq, Dict,
  Outcome, ok, panic, ltb, if◌then◌else◌,
}
use osha.Docker.{DockerError}
use osha.Docker.Client.{Engine, EngineState}
use osha.Docker.Compose.Types.{
  ServiceConfig, ServiceVolumeConfig, HealthCheckConfig, BlkioConfig, WeightConfig, ThrottleConfig,
  UlimitsConfig,
}
use osha.Docker.Generation.Bindings.{Mounts, PortMaps}
use osha.Docker.Objects.{HostConfig, Config, Resources, WeightDevice, ThrottleDevice, Ulimit}

-- What `generateService` takes from other packages: Docker's engine with `containerimpl.NewState`,
-- `nat.NewPort`, the methods `ServiceVolumeConfig.String` and `HostsList.AsList` of compose-go, and
-- two computations on floats, `int64(x * 100)` on a float32 and `int(d.Seconds())` on a duration.
pub record Packages (Time : Type 0) : Type 0 where
  pub engine : Engine Time
  pub new_state : EngineState Time
  pub new_port : Text → Text → Option Text
  pub volume_string : ServiceVolumeConfig → Text
  pub as_list : Dict Text (List Text) → Text → List Text
  pub hundredfold : ℕ → ℕ
  pub seconds : ℕ → ℕ

weight_device : WeightConfig → WeightDevice
weight_device e = record { path = e.path; weight = e.weight }

throttle_device : ThrottleConfig → ThrottleDevice
throttle_device e = record { path = e.path; rate = e.rate }

ulimit : Text × UlimitsConfig → Ulimit
ulimit (name, limit) = record { name = name; hard = limit.hard; soft = limit.soft }

-- `if service.BlkioConfig != nil`
with_blkio : Option BlkioConfig → Resources → Resources
unfolding weight_device throttle_device
with_blkio none r = r
with_blkio (some b) r = record r {
  blkio_weight = b.weight;
  blkio_weight_device = map weight_device b.weight_device;
  blkio_device_read_bps = map throttle_device b.device_read_bps;
  blkio_device_read_iops = map throttle_device b.device_read_iops;
  blkio_device_write_bps = map throttle_device b.device_write_bps;
  blkio_device_write_iops = map throttle_device b.device_write_iops;
}

-- `service.MemSwappiness > 0` on an int64.
abbrev is_positive : ℕ → Bool
is_positive n = ltb 0 n && ltb n (2 ^ 63)

make_resources : {Time : Type 0} → Packages Time → ServiceConfig → Resources
unfolding with_blkio ulimit
make_resources packages service = with_blkio service.blkio_config (record {
  cpu_shares = service.cpu_shares;
  memory = service.mem_limit;
  cgroup_parent = service.cgroup_parent;
  cpu_period = service.cpu_period;
  cpu_quota = service.cpu_quota;
  cpu_realtime_period = service.cpu_rt_period;
  cpu_realtime_runtime = service.cpu_rt_runtime;
  cpuset_cpus = service.cpu_set;
  cpuset_mems = service.cpu_set;
  device_cgroup_rules = service.device_cgroup_rules;
  memory_reservation = service.mem_reservation;
  memory_swap = service.mem_swap_limit;
  memory_swappiness =
      if is_positive service.mem_swappiness then some service.mem_swappiness else none;
  oom_kill_disable = some service.oom_kill_disable;
  pids_limit = some service.pids_limit;
  ulimits = map ulimit service.ulimits;
  cpu_count = service.cpu_count;
  cpu_percent = packages.hundredfold service.cpu_percent;
  blkio_weight = 0;
  blkio_weight_device = [];
  blkio_device_read_bps = [];
  blkio_device_read_iops = [];
  blkio_device_write_bps = [];
  blkio_device_write_iops = [];
})

-- `*service.HealthCheck.Retries`
unfoldable pub retry_count : Option HealthCheckConfig → Outcome DockerError ℕ
retry_count none = ok 0
retry_count (some h) = elim h.retries [ none ↦ panic | some n ↦ ok n ]

abbrev pub masked_paths : List Text
masked_paths =
    bytes "/proc/asound"
    ∷ bytes "/proc/acpi"
    ∷ bytes "/proc/kcore"
    ∷ bytes "/proc/keys"
    ∷ bytes "/proc/latency_stats"
    ∷ bytes "/proc/timer_list"
    ∷ bytes "/proc/timer_stats"
    ∷ bytes "/proc/sched_debug"
    ∷ bytes "/proc/scsi"
    ∷ bytes "/sys/firmware"
    ∷ bytes "/sys/devices/virtual/powercap"
    ∷ []

abbrev pub readonly_paths : List Text
readonly_paths =
    bytes "/proc/bus"
    ∷ bytes "/proc/fs"
    ∷ bytes "/proc/irq"
    ∷ bytes "/proc/sys"
    ∷ bytes "/proc/sysrq-trigger"
    ∷ []

unfoldable pub make_host_config :
    {Time : Type 0} → Packages Time → ServiceConfig → Mounts → PortMaps → Text → ℕ → HostConfig
unfolding make_resources
make_host_config packages service mounts ports network_mode retries = record {
  binds = mounts.binds;
  log_type = bytes "json-file";
  network_mode = network_mode;
  port_bindings = ports.port_bindings;
  restart_policy = service.restart;
  maximum_retry_count = retries;
  volume_driver = service.volume_driver;
  volumes_from = service.volumes_from;
  annotations = service.annotations;
  cap_add = service.cap_add;
  cap_drop = service.cap_drop;
  cgroupns_mode = bytes "private";
  dns = service.dns;
  dns_options = service.dns_opts;
  dns_search = service.dns_search;
  extra_hosts = elim service.extra_hosts [
    | none ↦ []
    | some hosts ↦ packages.as_list hosts (bytes ":")
  ];
  group_add = service.group_add;
  ipc_mode = bytes "private";
  cgroup = service.cgroup;
  links = service.links;
  oom_score_adj = service.oom_score_adj;
  privileged = service.privileged;
  readonly_rootfs = service.read_only;
  security_opt = service.security_opt;
  storage_opt = service.storage_opt;
  uts_mode = service.uts;
  userns_mode = service.userns_mode;
  shm_size = service.shm_size;
  sysctls = service.sysctls;
  runtime = if text_beq service.runtime [] then bytes "runc" else service.runtime;
  isolation = service.isolation;
  resources = make_resources packages service;
  mounts = mounts.host_config_mounts;
  masked_paths = masked_paths;
  readonly_paths = readonly_paths;
}

unfoldable pub make_config :
    {Time : Type 0} → Packages Time → ServiceConfig → Text → List Text → PortMaps → Config
make_config packages service hostname env ports = record {
  hostname = hostname;
  domainname = service.domain_name;
  user = service.user;
  attach_stdout = true;
  attach_stderr = true;
  exposed_ports = ports.exposed_ports;
  tty = service.tty;
  open_stdin = service.stdin_open;
  env = env;
  cmd = service.command;
  image = service.image;
  labels = [];
  working_dir = service.working_dir;
  entrypoint = service.entrypoint;
  mac_address = service.mac_address;
  stop_signal = service.stop_signal;
  stop_timeout = elim service.stop_grace_period [
    | none ↦ none
    | some d ↦ some (packages.seconds d)
  ];
}
