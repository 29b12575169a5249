-- ===== src/Beacon/Provider.antt =====
-- beacon/manager/beacon-interface.go: the manager as a provider of the Beacon API. The context and
-- the state id that the calls take are not used by any of them, and only `beacon_validators` can
-- return an error.
pub mod Syncing
use osha.Base.{ℕ, Bool, List, map, Text, Outcome, ok, ◌>>=◌, ltb, sub64}
use osha.Beacon.External.{Packages}
use osha.Beacon.Heap.{Heap}
use osha.Beacon.Format.{ValidatorMeta, PendingDeposit, get_validator_meta, convert_to_native_format}
use osha.Beacon.Manager.{
  BeaconMockManager, ManagerError, get_validators, get_pending_deposits, get_current_slot,
  get_highest_slot,
}

pub record FinalityCheckpoints : Type 0 where
  pub finalized_epoch : ℕ
  pub current_justified_epoch : ℕ
  pub previous_justified_epoch : ℕ

pub record Genesis : Type 0 where
  pub genesis_time : ℕ
  pub genesis_validators_root : Text
  pub genesis_fork_version : Text

pub record DepositContract : Type 0 where
  pub address : ℕ
  pub chain_id : ℕ

pub record Eth2Config : Type 0 where
  pub seconds_per_slot : ℕ
  pub slots_per_epoch : ℕ
  pub epochs_per_sync_committee_period : ℕ
  pub capella_fork_version : Text

pub record SyncStatus : Type 0 where
  pub is_syncing : Bool
  pub head_slot : ℕ
  pub sync_distance : ℕ

unfoldable pub beacon_finality_checkpoints : BeaconMockManager → FinalityCheckpoints
unfolding get_current_slot
beacon_finality_checkpoints m = record {
  finalized_epoch = get_current_slot m;
  current_justified_epoch = get_current_slot m;
  previous_justified_epoch = get_current_slot m;
}

-- time.Time.Unix, as a uint64: the Unix epoch is this many seconds after the year 1.
abbrev pub unix : ℕ → ℕ
unix seconds = sub64 seconds 62_135_596_800

unfoldable pub beacon_genesis : BeaconMockManager → Genesis
beacon_genesis m = record {
  genesis_time = unix m.config.genesis_time.seconds;
  genesis_validators_root = m.config.genesis_validators_root;
  genesis_fork_version = m.config.genesis_fork_version;
}

unfoldable pub beacon_validators :
    Packages → List Text → BeaconMockManager → Heap → Outcome ManagerError (List ValidatorMeta)
beacon_validators core ids m h = do
  validators ← get_validators core ids m
  ok (map (λ p. get_validator_meta (h.validator p)) validators)

unfoldable pub beacon_pending_deposits : BeaconMockManager → Heap → List PendingDeposit
unfolding get_pending_deposits
beacon_pending_deposits m h =
    map (λ d. convert_to_native_format (h.deposit d)) (get_pending_deposits m)

unfoldable pub config_deposit_contract : BeaconMockManager → DepositContract
config_deposit_contract m = record {
  address = m.config.deposit_contract;
  chain_id = m.config.chain_id;
}

unfoldable pub config_spec : BeaconMockManager → Eth2Config
config_spec m = record {
  seconds_per_slot = m.config.seconds_per_slot;
  slots_per_epoch = m.config.slots_per_epoch;
  epochs_per_sync_committee_period = m.config.epochs_per_sync_committee_period;
  capella_fork_version = m.config.capella_fork_version;
}

unfoldable pub node_syncing : BeaconMockManager → SyncStatus
unfolding get_current_slot get_highest_slot
node_syncing m =
    let current_slot = get_current_slot m in
    let highest_slot = get_highest_slot m in
    record {
      is_syncing = ltb current_slot highest_slot;
      head_slot = highest_slot;
      sync_distance = sub64 highest_slot current_slot;
    }
