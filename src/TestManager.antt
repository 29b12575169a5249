-- ===== src/TestManager.antt =====
-- test-manager.go: the chain of a test, which is kept in two places, Hardhat's execution chain and
-- the mock Beacon node. Hardhat is behind an RPC client, a parameter: `H` is its state, and a call
-- returns `none` where it fails. The snapshots of all services are in TestManager/Snapshots.
pub mod Advancing
pub mod Drift
pub mod Snapshots
pub mod Startup
mod Examples
use osha.Base.{
  ℕ, zero, suc, ◌*◌, ◌%◌, Bool, true, false, Option, none, some, Text, Dict, Outcome, ok, fail,
  panic, u64_mod,
}
use osha.Beacon.Manager
use osha.Beacon.Heap.{Heap}
use osha.Beacon.Manager.{BeaconMockManager, ManagerError}
use osha.Docker.{DockerError}
use osha.Docker.Manager.{DockerMockManager}
use osha.Filesystem.{FilesystemManager, Disk, FileError}

pub record Hardhat (H : Type 0) : Type 0 where
  pub evm_mine : H → Option H
  pub evm_increase_time : ℕ → H → Option H
  pub evm_set_automine : Bool → H → Option H
  pub evm_set_interval_mining : ℕ → H → Option H
  pub evm_snapshot : H → Option (Text × H)
  pub evm_revert : Text → H → Option H

-- snapshot.go: the states of the modules by the module, which is a pointer. `S` has the states.
pub record Snapshot (S : Type 0) : Type 0 where
  pub name : Text
  pub states : Dict ℕ S

-- The manager with what its pointers lead to: the state `H` of the programs outside, the heap of the
-- Beacon node and the disk. The maps have the snapshots by their names, Hardhat's names for them, and
-- the modules by their names.
pub record TestManager (H S : Type 0) : Type 0 where
  pub beacon_mock_manager : BeaconMockManager
  pub docker : DockerMockManager
  pub baseline_snapshot_id : Text
  pub fs_manager : FilesystemManager
  pub snapshots : Dict Text (Snapshot S)
  pub hardhat_snapshot_map : Dict Text Text
  pub registered_modules : Dict Text ℕ
  pub hardhat : H
  pub heap : Heap
  pub disk : Disk

pub data TestError : Type 0 where
  no_mining no_time_increase no_automine no_interval : TestError
  no_evm_snapshot no_evm_revert no_name : TestError
  no_env_var no_rpc_client no_eth_client no_header no_chain_id : TestError
  no_snapshot no_hardhat_snapshot : Text → TestError
  beacon_error : ManagerError → TestError
  docker_error : DockerError → TestError
  file_error : FileError → TestError
  module_error : Text → TestError

-- `for i := uint(0); i < slots; i++ { m.beaconMockManager.CommitBlock(false) }`
unfoldable pub miss_slots : ℕ → BeaconMockManager → BeaconMockManager
miss_slots zero b = b
miss_slots (suc slots) b = miss_slots slots (Manager.commit_block false b)

module _ {H S : Type 0} (rpc : Hardhat H) where
  -- A call of Hardhat that changes its state, or the error.
  unfoldable pub call :
      TestError → Option H → TestManager H S → Outcome TestError (Unit {0}) × TestManager H S
  call e none m = (fail e, m)
  call e (some h) m = (ok tt, record m { hardhat = h })

  unfoldable pub hardhat_mine_block :
      TestManager H S → Outcome TestError (Unit {0}) × TestManager H S
  unfolding call
  hardhat_mine_block m = call no_mining (rpc.evm_mine m.hardhat) m

  unfoldable pub hardhat_increase_time :
      ℕ → TestManager H S → Outcome TestError (Unit {0}) × TestManager H S
  unfolding call
  hardhat_increase_time seconds m =
      call no_time_increase (rpc.evm_increase_time seconds m.hardhat) m

  -- The rest of a method, behind a call that may have returned an error.
  unfoldable pub and_then :
      Outcome TestError (Unit {0}) × TestManager H S
      → (TestManager H S → Outcome TestError (Unit {0}) × TestManager H S)
      → Outcome TestError (Unit {0}) × TestManager H S
  and_then (ok _, m) f = f m
  and_then (fail e, m) f = (fail e, m)
  and_then (panic, m) f = (panic, m)

  unfoldable pub commit_block : TestManager H S → Outcome TestError (Unit {0}) × TestManager H S
  unfolding hardhat_mine_block hardhat_increase_time and_then
  commit_block m = and_then (hardhat_mine_block m) λ mined.
      and_then (hardhat_increase_time mined.beacon_mock_manager.config.seconds_per_slot mined)
        λ later. (
          ok tt,
          record later {
            beacon_mock_manager = Manager.commit_block true later.beacon_mock_manager;
          },
        )

  -- `for i := uint(0); i < slots; i++ { err := m.CommitBlock() ... }`
  unfoldable pub commit_blocks :
      ℕ → TestManager H S → Outcome TestError (Unit {0}) × TestManager H S
  unfolding commit_block
  commit_blocks zero m = (ok tt, m)
  commit_blocks (suc slots) m = and_then (commit_block m) (commit_blocks slots)

  unfoldable pub advance_slots :
      ℕ → Bool → TestManager H S → Outcome TestError (Unit {0}) × TestManager H S
  unfolding commit_blocks miss_slots
  advance_slots slots true m = commit_blocks slots m
  advance_slots slots false m =
      let missed = record m { beacon_mock_manager = miss_slots slots m.beacon_mock_manager } in
      hardhat_increase_time ((missed.beacon_mock_manager.config.seconds_per_slot * slots) % u64_mod)
        missed

  unfoldable pub set_beacon_head_slot : ℕ → TestManager H S → TestManager H S
  set_beacon_head_slot slot m = record m {
    beacon_mock_manager = Manager.set_highest_slot slot m.beacon_mock_manager;
  }

  unfoldable pub toggle_auto_mine :
      Bool → TestManager H S → Outcome TestError (Unit {0}) × TestManager H S
  toggle_auto_mine enabled m = call no_automine (rpc.evm_set_automine enabled m.hardhat) m

  unfoldable pub set_mining_interval :
      ℕ → TestManager H S → Outcome TestError (Unit {0}) × TestManager H S
  set_mining_interval interval m =
      call no_interval (rpc.evm_set_interval_mining interval m.hardhat) m
