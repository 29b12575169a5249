-- ===== src/TestManager/Startup.antt =====
-- `NewTestManager` of test-manager.go, up to the baseline snapshot.
pub mod Baseline
use osha.Base.{
  ℕ, ◌%◌, u64_mod, add64, List, [], Option, none, some, Text, bytes, insert, Outcome, ok, fail,
  panic,
}
use osha.Beacon.Config.{Config, Time, new_default_config}
use osha.Beacon.External.{Packages}
use osha.Beacon.Heap.{Heap}
use osha.Beacon.Manager.{new_beacon_mock_manager}
use osha.Docker.{Codecs}
use osha.Docker.Manager.{new_docker_mock_manager}
use osha.Filesystem
use osha.Filesystem.{System, FilesystemManager, Disk, FileError, new_filesystem_manager}
use osha.TestManager.{
  Hardhat, TestManager, TestError, no_env_var, no_rpc_client, no_eth_client, no_header, no_chain_id,
  file_error,
}
use osha.TestManager.Snapshots.{Modules, create_snapshot}

-- Hardhat at an address: the connections of go-ethereum's clients, and what they tell of the chain,
-- the number and the time of the latest block and the chain's id.
pub record Network (H Client : Type 0) : Type 0 where
  pub dial_rpc : Text → Option H
  pub dial_eth : Text → Option Client
  pub latest_header : Client → Option (ℕ × ℕ)
  pub chain_id : Client → Option ℕ

-- The environment variable, the clock, the paths of the two temporary folders where they can be made,
-- and the identifiers that are drawn.
pub record Machine : Type 0 where
  pub hardhat_url : Option Text
  pub now : Time
  pub test_dir : Option Text
  pub snapshot_dir : Option Text
  pub candidates : List Text

-- The configuration, from the values of Hardhat. The number and the id are big integers, of which the
-- low 64 bits are taken. `time.Unix` counts from 1970, that many seconds after the year 1.
unfoldable pub hardhat_config : Packages → Time → ℕ × ℕ → ℕ → Config
unfolding new_default_config
hardhat_config core now (number, time) chain_id = record (new_default_config core now) {
  first_execution_block_index = number % u64_mod;
  chain_id = chain_id % u64_mod;
  genesis_time = record { seconds = add64 time 62_135_596_800; nanoseconds = 0 };
}

-- The result, and the disk if there is no manager.
abbrev pub Started : Type 0 → Type 0 → Type 0
Started H S = Outcome TestError (TestManager H S) × Disk

module _ {H S : Type 0} where
  unfoldable pub with_baseline : Outcome TestError Text × TestManager H S → Started H S
  with_baseline (ok name, m) = (ok (record m { baseline_snapshot_id = name }), m.disk)
  with_baseline (fail e, m) = (fail e, m.disk)
  with_baseline (panic, m) = (panic, m.disk)

  -- The manager before its first snapshot.
  abbrev pub bare_manager : Config → H → FilesystemManager → Disk → Heap → TestManager H S
  bare_manager config hardhat files disk heap = record {
    beacon_mock_manager = new_beacon_mock_manager config;
    docker = new_docker_mock_manager;
    baseline_snapshot_id = [];
    fs_manager = files;
    snapshots = [];
    hardhat_snapshot_map = [];
    registered_modules = [];
    hardhat = hardhat;
    heap = heap;
    disk = disk;
  }

  -- The folders are removed if a connection fails; an error in that is only logged.
  unfoldable pub give_up : System → FilesystemManager → Disk → TestError → Started H S
  give_up system files disk e =
      let (_, _, disk') = Filesystem.close system files disk in (fail e, disk')

module _ {H S Client : Type 0} (rpc : Hardhat H) (modules : Modules H S) (codecs : Codecs)
    (system : System) (core : Packages) (network : Network H Client) (machine : Machine)
    (heap : Heap) where
  unfoldable pub start : H → ℕ × ℕ → ℕ → FilesystemManager → Disk → Started H S
  start hardhat header chain_id files disk = with_baseline (
      create_snapshot rpc modules codecs system machine.candidates
        (bare_manager (hardhat_config core machine.now header chain_id) hardhat files disk heap))

  unfoldable pub connect : Text → FilesystemManager → Disk → Started H S
  unfolding give_up
  connect url files disk = elim (network.dial_rpc url) [
    | none ↦ give_up system files disk no_rpc_client
    | some hardhat ↦ elim (network.dial_eth url) [
      | none ↦ give_up system files disk no_eth_client
      | some client ↦ elim (network.latest_header client) [
        | none ↦ give_up system files disk no_header
        | some header ↦ elim (network.chain_id client) [
          | none ↦ give_up system files disk no_chain_id
          | some id ↦ start hardhat header id files disk
        ]
      ]
    ]
  ]

  unfoldable pub connect_with : Text → Outcome FileError FilesystemManager × Disk → Started H S
  connect_with url (ok files, disk) = connect url files disk
  connect_with url (fail e, disk) = (fail (file_error e), disk)
  connect_with url (panic, disk) = (panic, disk)

  unfoldable pub new_test_manager : Disk → Started H S
  new_test_manager disk = elim machine.hardhat_url [
    | none ↦ (fail no_env_var, disk)
    | some url ↦
        connect_with url (new_filesystem_manager system machine.test_dir machine.snapshot_dir disk)
  ]
