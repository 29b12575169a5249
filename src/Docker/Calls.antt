-- ===== src/Docker/Calls.antt =====
-- Sequences of calls on the Docker mock of docker/: the pool of subnets through all of them.
use osha.Base.{
  lookup-empty, ℕ, ◌+◌, ◌≡◌, true, List, [], ◌∷◌, none, some, Text, text_eq, lookup, arith,
  if◌then◌else◌, count,
}
use osha.Docker.{State, Codecs}
use osha.Docker.Manager.{
  DockerMockManager, new_docker_mock_manager, take_snapshot, revert_to_snapshot,
}
use osha.Docker.Subnets.Clones.{
  HavePools, or_unchanged, take_snapshot-HavePools, revert_to_snapshot-HavePools,
}
use osha.Docker.Client.{
  container_remove, container_restart, container_stop, network_remove, volume_remove,
  mock_add_container, mock_add_volume, mock_set_container_disk_usage, mock_set_volume_disk_usage,
}
use osha.Docker.Compose.{Tools, start, up, down}
use osha.Docker.Compose as Compose
use osha.Docker.Generation.Settings.{Packages}
use osha.Docker.Generation.World.{World, Sources, Action, update, ◌>>=◌, time_now}
use osha.Docker.Objects.{Container, Volume}
use osha.Docker.Subnets.{is_bridge, new_state-IsPool, network_remove-IsPool}
use osha.Docker.Subnets.Commands.{start-KeepsPool, up-KeepsPool, stop-KeepsPool, down-KeepsPool}
use osha.Docker.Subnets.Pool.{values, one_key, count_of_lookup}
use osha.Docker.Subnets.Services.{KeepsPool, update-KeepsPool}
use osha.Docker.Subnets.Steps.{
  container_remove-IsPool, with_engine-IsPool, volume_remove-IsPool, mock_add_container-IsPool,
  mock_add_volume-IsPool, set_container_usage-IsPool, set_volume_usage-IsPool,
}

-- The calls that change the state.
pub data Call : Type 0 where
  compose_up compose_stop compose_down : Text → List Text → Call
  remove_container remove_network remove_volume : Text → Call
  start_container restart_container stop_container : Text → Call
  add_container : Container → Call
  add_volume : Volume → Call
  set_container_usage : Text → ℕ → ℕ → Call
  set_volume_usage : Text → ℕ → Call

-- The calls on the manager, with its two snapshot methods.
pub data ManagerCall : Type 0 where
  on_state : Call → ManagerCall
  snapshot revert : Text → ManagerCall

-- The manager, with a count of the random draws and of the readings of the clock.
pub record Mock : Type 0 where
  pub manager : DockerMockManager
  pub draws : ℕ
  pub ticks : ℕ

abbrev pub new_mock : ℕ → ℕ → Mock
new_mock draws ticks = record { manager = new_docker_mock_manager; draws = draws; ticks = ticks }

abbrev pub world_of : Mock → World
world_of m = record { state = m.manager.state; draws = m.draws; ticks = m.ticks }

module _ {Time Options Model : Type 0} (packages : Packages Time) (sources : Sources Time)
    (tools : Tools Options Model) where
  unfoldable pub run : Call → Action (Unit {0})
  unfolding time_now
  run (compose_up name files) = up packages sources tools name files
  run (compose_stop name files) = Compose.stop packages sources tools name files
  run (compose_down name files) = down tools name files
  run (remove_container name) = update (container_remove name)
  run (remove_network name) = update (network_remove name)
  run (remove_volume name) = update (volume_remove name)
  run (start_container name) = start packages sources name
  run (restart_container name) =
      time_now sources >>= λ now. update (container_restart packages.engine now name)
  run (stop_container name) =
      time_now sources >>= λ now. update (container_stop packages.engine now name)
  run (add_container info) = update (mock_add_container info)
  run (add_volume volume) = update (mock_add_volume volume)
  run (set_container_usage name root rw_size) =
      update (mock_set_container_disk_usage name root rw_size)
  run (set_volume_usage name size) = update (mock_set_volume_disk_usage name size)

  run-KeepsPool : (c : Call) → KeepsPool (run c)
  unfolding run container_restart container_stop
  run-KeepsPool (compose_up name files) = up-KeepsPool packages sources tools name files
  run-KeepsPool (compose_stop name files) = stop-KeepsPool packages sources tools name files
  run-KeepsPool (compose_down name files) = down-KeepsPool packages sources tools name files
  run-KeepsPool (remove_container name) = update-KeepsPool _ (container_remove-IsPool name)
  run-KeepsPool (remove_network name) = update-KeepsPool _ (network_remove-IsPool name)
  run-KeepsPool (remove_volume name) = update-KeepsPool _ (volume_remove-IsPool name)
  run-KeepsPool (start_container name) = start-KeepsPool packages sources name
  run-KeepsPool (restart_container name) =
      λ w v. update-KeepsPool _ (with_engine-IsPool packages.engine _ name) _ v
  run-KeepsPool (stop_container name) =
      λ w v. update-KeepsPool _ (with_engine-IsPool packages.engine _ name) _ v
  run-KeepsPool (add_container info) = update-KeepsPool _ (mock_add_container-IsPool info)
  run-KeepsPool (add_volume volume) = update-KeepsPool _ (mock_add_volume-IsPool volume)
  run-KeepsPool (set_container_usage name root rw_size) =
      update-KeepsPool _ (set_container_usage-IsPool name root rw_size)
  run-KeepsPool (set_volume_usage name size) =
      update-KeepsPool _ (set_volume_usage-IsPool name size)

new-HavePools : HavePools new_docker_mock_manager
unfolding new_docker_mock_manager
new-HavePools = record {
  current = new_state-IsPool;
  saved = λ name s e. absurd (cc (lookup-empty {V = State} name, e));
}

module _ {Time Options Model : Type 0} (packages : Packages Time) (sources : Sources Time)
    (tools : Tools Options Model) (codecs : Codecs) where
  unfoldable pub step : ManagerCall → Mock → Mock
  unfolding run
  step (on_state c) m =
      let (_, w) = run packages sources tools c (world_of m) in
      record { manager = record m.manager { state = w.state }; draws = w.draws; ticks = w.ticks }
  step (snapshot name) m = record m {
    manager = or_unchanged m.manager (take_snapshot codecs name m.manager);
  }
  step (revert name) m = record m {
    manager = or_unchanged m.manager (revert_to_snapshot codecs name m.manager);
  }

  -- The next call finds what a call left, whether it succeeded or not.
  unfoldable pub run_all : List ManagerCall → Mock → Mock
  unfolding step
  run_all [] m = m
  run_all (c ∷ cs) m = run_all cs (step c m)

  step-HavePools : (c : ManagerCall) (m : Mock) → HavePools m.manager → HavePools (step c m).manager
  unfolding step
  step-HavePools (on_state c) m v = record {
    current = run-KeepsPool packages sources tools c (world_of m) v.current;
    saved = v.saved;
  }
  step-HavePools (snapshot name) m v = take_snapshot-HavePools codecs name m.manager v
  step-HavePools (revert name) m v = revert_to_snapshot-HavePools codecs name m.manager v

  run_all-HavePools :
      (cs : List ManagerCall) (m : Mock) → HavePools m.manager → HavePools (run_all cs m).manager
  unfolding run_all
  run_all-HavePools [] m v = v
  run_all-HavePools (c ∷ cs) m v = run_all-HavePools cs (step c m) (step-HavePools c m v)

  -- After any calls on a new mock, its snapshots and the returns to them among them, in any order and
  -- however they end, every subnet from 17 to 31 is either available or used by one network, and no
  -- other number is either; the subnet of a network is one of these and no other network has it; and a
  -- name without a network has no subnet.
  pub run_all_lem :
      (cs : List ManagerCall) (draws ticks : ℕ)
      → let s = (run_all cs (new_mock draws ticks)).manager.state in
        ((i : ℕ)
          → count i s.available_subnets + count i (values s.used_subnets)
            ≡ (if is_bridge i then 1 else 0))
        × ((name other : Text) (i : ℕ)
            → lookup name s.used_subnets ≡ some i
            → (is_bridge i ≡ true) × (lookup other s.used_subnets ≡ some i → name ≡ other))
        × ((name : Text) → lookup name s.networks ≡ none → lookup name s.used_subnets ≡ none)
  run_all_lem cs draws ticks =
      let m = new_mock draws ticks in
      let s = (run_all cs m).manager.state in
      let v = (run_all-HavePools cs m new-HavePools).current in
      (
        v.each,
        λ name other i e. (
          ground (arith, v.each i, count_of_lookup i name s.used_subnets e),
          λ f. one_key i name other s.used_subnets (ground (arith, v.each i)) e f,
        ),
        v.owned,
      )
