-- ===== src/TestManager/Examples.antt =====
-- The theorems about test-manager.go for a Hardhat that is a pair of numbers.
mod Returns
use osha.Base.{
  ℕ, ◌+◌, ◌≤◌, ◌≡◌, refl, true, false, [], bytes, none, some, arith, ltb, if◌then◌else◌,
}
use osha.Beacon.Config.{zero_config}
use osha.Beacon.Examples.{heap}
use osha.Docker.Manager.{new_docker_mock_manager}
use osha.Beacon.Database.Slots.{commit_all}
use osha.Beacon.Database.{Database}
use osha.TestManager.{Hardhat, TestManager, commit_blocks, advance_slots}
use osha.TestManager.Advancing.{slots_of, IsWorking, Advanced, advance_slots_lem}
use osha.TestManager.Drift.{Counts, Ended, commit_blocks_lem}

-- Hardhat's height and the offset of its clock.
abbrev rpc : Hardhat (ℕ × ℕ)
rpc = record {
  evm_mine = λ h. some (h.0 + 1, h.1);
  evm_increase_time = λ s h. some (h.0, h.1 + s);
  evm_set_automine = λ b h. some h;
  evm_set_interval_mining = λ i h. some h;
  evm_snapshot = λ h. some ([], h);
  evm_revert = λ name h. some h;
}

-- A Hardhat that mines no block from the height 2 on.
abbrev stuck : Hardhat (ℕ × ℕ)
stuck = record rpc { evm_mine = λ h. if ltb h.0 2 then some (h.0 + 1, h.1) else none }

rpc-IsWorking : IsWorking rpc (λ h. h.0) (λ h. h.1)
rpc-IsWorking = record {
  mines = λ h. ((h.0 + 1, h.1), refl, refl, refl);
  increases = λ s h. ((h.0, h.1 + s), refl, refl, refl);
}

abbrev database : Database
database = record {
  validators = [];
  pending_deposits = [];
  validator_pubkey_map = [];
  execution_block_map = [];
  current_slot = 0;
  highest_slot = 0;
  next_execution_block_index = 0;
}

abbrev manager : TestManager (ℕ × ℕ) ℕ
manager = record {
  beacon_mock_manager = record {
    database = database;
    config = record zero_config { seconds_per_slot = 12 };
    snapshots = [];
  };
  hardhat = (0, 0);
  docker = new_docker_mock_manager;
  baseline_snapshot_id = [];
  fs_manager = record { test_dir = bytes "/t"; snapshot_dir = bytes "/s" };
  snapshots = [];
  hardhat_snapshot_map = [];
  registered_modules = [];
  heap = heap;
  disk = [];
}

advance_slots_lem_example :
    Advanced rpc
      (λ h. h.0)
      (λ h. h.1)
      rpc-IsWorking
      3
      false
      manager
      0
      (advance_slots rpc 3 false manager)
advance_slots_lem_example =
    advance_slots_lem rpc (λ h. h.0) (λ h. h.1) rpc-IsWorking 3 false manager (omega arith)

stuck-Counts : Counts stuck (λ h. h.0)
stuck-Counts = record {
  mines = λ h h' e. ground (arith, e);
  increases = λ s h h' e. ground (arith, e);
}

-- The third block is not mined.
commit_blocks_lem_example :
    let r = commit_blocks stuck 3 manager in
    (k : ℕ) × (k ≤ 3)
    × (r.1.beacon_mock_manager
        ≡ record manager.beacon_mock_manager { database = commit_all (slots_of k true) database })
    × Ended stuck (λ h. h.0) stuck-Counts 3 k manager r
commit_blocks_lem_example = commit_blocks_lem stuck (λ h. h.0) stuck-Counts 3 manager
