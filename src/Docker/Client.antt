-- ===== src/Docker/Client.antt =====
-- docker/client.go: the calls of the Docker API and of the mock's administration. The listings
-- `ContainerList` and `DiskUsage` are in Docker/Listing.
use osha.Base.{
  ℕ, Bool, [], ◌∷◌, List, Option, none, some, Text, text_eq, Dict, lookup, insert, delete, keys,
  Outcome, ok, fail, panic, ◌>>=◌, ◌++◌,
}
use osha.Docker.Objects.{Container, ContainerState, Volume, Network}
use osha.Docker.{
  State, DockerError, no_such_container, no_such_network, no_such_volume, network_in_use,
  container_exists, volume_exists, bad_time,
}

-- The state of the Docker engine, containerimpl.State, with its times.
pub record EngineState (Time : Type 0) : Type 0 where
  pub running : Bool
  pub paused : Bool
  pub restarting : Bool
  pub oom_killed : Bool
  pub dead : Bool
  pub pid : ℕ
  pub exit_code_value : ℕ
  pub error_msg : Text
  pub started_at : Time
  pub finished_at : Time
  pub health : Option Text

-- Package time at RFC 3339, and the methods `SetRunning`, `SetStopped` (with the exit code 0) and
-- `String` of the engine's state.
pub record Engine (Time : Type 0) : Type 0 where
  pub parse_time : Text → Option Time
  pub format_time : Time → Text
  pub set_running : Time → EngineState Time → EngineState Time
  pub set_stopped : Time → EngineState Time → EngineState Time
  pub state_string : EngineState Time → Text

-- The container of a name, or the error of the Docker daemon.
unfoldable pub find_container : Text → State → Outcome DockerError Container
find_container name s = elim (lookup name s.containers) [
  | none ↦ fail (no_such_container name)
  | some c ↦ ok c
]

unfoldable pub container_inspect : Text → State → Outcome DockerError Container
unfolding find_container
container_inspect = find_container

-- The loop of `ContainerRemove` over the networks of the container.
unfoldable pub disconnect : Text → List Text → Dict Text Network → Dict Text Network
disconnect id [] networks = networks
disconnect id (name ∷ names) networks = elim (lookup name networks) [
  | none ↦ disconnect id names networks
  | some n ↦
      disconnect id names (insert name (record n { containers = delete id n.containers }) networks)
]

unfoldable pub container_remove : Text → State → Outcome DockerError State
unfolding disconnect find_container keys
container_remove name s = do
  container ← find_container name s
  let removed = record s { containers = delete name s.containers }
  elim container.network_settings [
    | none ↦ ok removed
    | some settings ↦
        ok (record removed {
          networks = disconnect container.id (keys settings.networks) s.networks;
        })
  ]

module _ {Time : Type 0} (engine : Engine Time) where
  unfoldable pub get_state_from_container_state :
      ContainerState → Outcome DockerError (EngineState Time)
  get_state_from_container_state c = elim (engine.parse_time c.started_at) [
    | none ↦ fail (bad_time c.started_at)
    | some started ↦ elim (engine.parse_time c.finished_at) [
      | none ↦ fail (bad_time c.finished_at)
      | some finished ↦ ok (record {
        running = c.running;
        paused = c.paused;
        restarting = c.restarting;
        oom_killed = c.oom_killed;
        dead = c.dead;
        pid = c.pid;
        exit_code_value = c.exit_code;
        error_msg = c.error;
        started_at = started;
        finished_at = finished;
        health = c.health;
      })
    ]
  ]

  unfoldable pub get_container_state_from_state : EngineState Time → ContainerState
  get_container_state_from_state e = record {
    status = engine.state_string e;
    running = e.running;
    paused = e.paused;
    restarting = e.restarting;
    oom_killed = e.oom_killed;
    dead = e.dead;
    pid = e.pid;
    exit_code = e.exit_code_value;
    error = e.error_msg;
    started_at = engine.format_time e.started_at;
    finished_at = engine.format_time e.finished_at;
    health = e.health;
  }

  -- `*container.State = ...`, where the pointer is not nil.
  unfoldable pub change_state :
      (EngineState Time → EngineState Time) → Container → Outcome DockerError Container
  unfolding get_state_from_container_state get_container_state_from_state
  change_state f c = elim c.state [
    | none ↦ panic
    | some state ↦ do
      e ← get_state_from_container_state state
      ok (record c { state = some (get_container_state_from_state (f e)) })
  ]

  -- What `ContainerStart` and `ContainerStop` share.
  unfoldable pub with_engine :
      (EngineState Time → EngineState Time) → Text → State → Outcome DockerError State
  unfolding find_container change_state
  with_engine f name s = do
    container ← find_container name s
    changed ← change_state f container
    ok (record s { containers = insert name changed s.containers })

  unfoldable pub container_start : Time → Text → State → Outcome DockerError State
  unfolding with_engine
  container_start now = with_engine (engine.set_running now)

  unfoldable pub container_restart : Time → Text → State → Outcome DockerError State
  unfolding container_start
  container_restart now = container_start now

  unfoldable pub container_stop : Time → Text → State → Outcome DockerError State
  unfolding with_engine
  container_stop now = with_engine (engine.set_stopped now)

-- `d.state.availableSubnets = append(d.state.availableSubnets, subnet)`, if there is one.
unfoldable pub give_back : Option ℕ → List ℕ → List ℕ
give_back none subnets = subnets
give_back (some subnet) subnets = subnets ++ subnet ∷ []

unfoldable pub network_remove : Text → State → Outcome DockerError State
unfolding give_back
network_remove name s = elim (lookup name s.networks) [
  | none ↦ fail (no_such_network name)
  | some network ↦ elim network.containers [
    | _ ∷ _ ↦ fail (network_in_use name)
    | [] ↦ ok (record s {
      available_subnets = give_back (lookup name s.used_subnets) s.available_subnets;
      networks = delete name s.networks;
      used_subnets = delete name s.used_subnets;
    })
  ]
]

unfoldable pub volume_remove : Text → State → Outcome DockerError State
volume_remove name s = elim (lookup name s.volumes) [
  | none ↦ fail (no_such_volume name)
  | some _ ↦ ok (record s { volumes = delete name s.volumes })
]

unfoldable pub mock_add_container : Container → State → Outcome DockerError State
mock_add_container info s = elim (lookup info.name s.containers) [
  | some _ ↦ fail (container_exists info.name)
  | none ↦ ok (record s { containers = insert info.name info s.containers })
]

unfoldable pub mock_add_volume : Volume → State → Outcome DockerError State
mock_add_volume volume s = elim (lookup volume.name s.volumes) [
  | some _ ↦ fail (volume_exists volume.name)
  | none ↦ ok (record s { volumes = insert volume.name volume s.volumes })
]

-- A size is written through its pointer.
unfoldable pub written : ℕ → Option ℕ → Outcome DockerError ℕ
written size none = panic
written size (some _) = ok size

unfoldable pub mock_set_container_disk_usage : Text → ℕ → ℕ → State → Outcome DockerError State
unfolding find_container written
mock_set_container_disk_usage name size_root_fs size_rw s = do
  c ← find_container name s
  root ← written size_root_fs c.size_root_fs
  rw_size ← written size_rw c.size_rw
  ok (record s {
    containers =
        insert name (record c { size_root_fs = some root; size_rw = some rw_size }) s.containers;
  })

unfoldable pub mock_set_volume_disk_usage : Text → ℕ → State → Outcome DockerError State
unfolding written
mock_set_volume_disk_usage name size s = elim (lookup name s.volumes) [
  | none ↦ fail (no_such_volume name)
  | some v ↦ do
    written_size ← written size v.usage_size
    ok (record s { volumes = insert name (record v { usage_size = some written_size }) s.volumes })
]
