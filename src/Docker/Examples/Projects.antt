-- ===== src/Docker/Examples/Projects.antt =====
-- A small project of Docker Compose, and the packages that docker/ uses, on texts.
use osha.Base.{◌*◌, true, false, List, [], ◌∷◌, ◌++◌, none, some, Text, bytes, if◌then◌else◌}
use osha.Docker.Client.{Engine}
use osha.Docker.Compose.{Tools}
use osha.Docker.Compose.Types.{NetworkConfig, ServiceConfig, ServicePortConfig, Project}
use osha.Docker.Generation.Settings.{Packages}
use osha.Docker.Generation.World.{Sources}

-- A clock of texts, and an engine that only sets the flag.
abbrev pub engine : Engine Text
engine = record {
  parse_time = λ t. some t;
  format_time = λ t. t;
  set_running = λ now e. record e { running = true; started_at = now };
  set_stopped = λ now e. record e { running = false; finished_at = now };
  state_string = λ e. if e.running then bytes "running" else bytes "exited";
}

abbrev pub packages : Packages Text
packages = record {
  engine = engine;
  new_state = record {
    running = false;
    paused = false;
    restarting = false;
    oom_killed = false;
    dead = false;
    pid = 0;
    exit_code_value = 0;
    error_msg = [];
    started_at = bytes "never";
    finished_at = bytes "never";
    health = none;
  };
  new_port = λ protocol target. some (target ++ b'/' ∷ protocol);
  volume_string = λ v. v.source ++ b':' ∷ v.target;
  as_list = λ hosts separator. [];
  hundredfold = λ x. x * 100;
  seconds = λ d. d;
}

-- The n-th draw is the byte n, and the clock stands still.
abbrev pub sources : Sources Text
sources = record { random = λ n. n ∷ []; now = λ n. bytes "now" }

abbrev pub config : NetworkConfig
config = record {
  name = bytes "second";
  enable_ipv6 = none;
  internal = false;
  attachable = true;
  external = false;
}

abbrev port : ServicePortConfig
port = record { target = 80; protocol = bytes "tcp"; host_ip = []; published = bytes "8080" }

abbrev pub service : ServiceConfig
service = record {
  name = bytes "node";
  annotations = [];
  blkio_config = none;
  cap_add = [];
  cap_drop = [];
  cgroup_parent = [];
  cgroup = [];
  cpu_count = 0;
  cpu_percent = 0;
  cpu_period = 0;
  cpu_quota = 0;
  cpu_rt_period = 0;
  cpu_rt_runtime = 0;
  cpu_set = [];
  cpu_shares = 0;
  command = [];
  container_name = bytes "box";
  device_cgroup_rules = [];
  dns = [];
  dns_opts = [];
  dns_search = [];
  domain_name = [];
  entrypoint = [];
  environment = (bytes "KEY", some (bytes "v")) ∷ [];
  extra_hosts = none;
  group_add = [];
  hostname = [];
  health_check = none;
  image = bytes "img";
  isolation = [];
  links = [];
  mac_address = [];
  mem_limit = 0;
  mem_reservation = 0;
  mem_swap_limit = 0;
  mem_swappiness = 5;
  network_mode = [];
  networks = (bytes "lan", none) ∷ [];
  oom_kill_disable = false;
  oom_score_adj = 0;
  pids_limit = 0;
  ports = port ∷ [];
  privileged = false;
  read_only = false;
  restart = [];
  runtime = [];
  security_opt = [];
  shm_size = 0;
  stdin_open = false;
  stop_grace_period = none;
  stop_signal = [];
  storage_opt = [];
  sysctls = [];
  tty = false;
  ulimits = [];
  user = [];
  userns_mode = [];
  uts = [];
  volume_driver = [];
  volumes = [];
  volumes_from = [];
  working_dir = [];
}

abbrev pub project : Project
project = record {
  services = (bytes "node", service) ∷ [];
  networks = (bytes "lan", config) ∷ [];
  volumes = (bytes "data", record { name = bytes "p_data"; driver_opts = [] }) ∷ [];
}

-- Every file holds the project.
abbrev pub tools : Tools (List Text) Text
tools = record {
  new_project_options = λ files name. some files;
  load_project = λ options. some project;
  load_model = λ options. some (bytes "model");
  json_indent = λ model. some model;
  yaml_indent = λ model. some model;
  yaml = λ s. some s.name;
  sha256 = λ text. text;
}
