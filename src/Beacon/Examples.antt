-- ===== src/Beacon/Examples.antt =====
-- A small node, and the theorems about beacon/ at it.
pub mod Databases
pub mod Validators
pub mod Requests
pub mod Sessions
use osha.Base.{
  ℕ, ◌≡◌, ◌≢◌, ◌⊎◌, ◌<◌, ◌+◌, inl, inr, refl, true, false, List, [], ◌∷◌, ◌++◌, map, Option, none,
  some, lookup, insert, Text, text_beq, text_beq_iff, text_eq, nat_eq, bytes, Outcome, ok, fail,
  panic, ◌>>=◌, length, get_elem?, All, arith, nat_beq, if◌then◌else◌, u64_mod, ltb,
}
use mathlib.Core.Option
use osha.Go.Strconv.{format_uint, format_digits}
use osha.Beacon.External.{Packages, DistinctStates}
use osha.Beacon.Config.{Config, Time, Files, new_default_config}
use osha.Beacon.Validator.{Validator, new_validator, set_balance, slash, punish}
use osha.Beacon.Deposit.{Deposit}
use osha.Beacon.Heap.{Heap, modify}
use osha.Beacon.Database.{Database, new_database}
use osha.Beacon.Database.View.{find, IsValid}
use osha.Beacon.Manager.{BeaconMockManager}
use osha.Beacon.Server.{Request, get, post, Json, Node}
use osha.Beacon.Session.{Event}
use osha.Beacon.Session
use osha.Beacon.Session.Validity.{IsValidNode}

abbrev pub core : Packages
core = record {
  pending_initialized = bytes "pending_initialized";
  active_ongoing = bytes "active_ongoing";
  active_exiting = bytes "active_exiting";
  active_slashed = bytes "active_slashed";
  validator_pubkey_length = 48;
  hex_to_validator_pubkey = λ text. if text_beq text (bytes "0x07") then some 7 else none;
  hex_to_hash = λ text. length text;
  hex_to_address = λ text. length text;
  from_hex = λ text. text;
}

abbrev pub json : Json
json = record { marshal = λ _. some (bytes "{}"); unmarshal_ids = λ _. some [] }

abbrev pub clock : Time
clock = record { seconds = 63_900_000_000; nanoseconds = 5 }

abbrev pub config : Config
unfolding new_default_config
config = new_default_config core clock

-- A validator that attests, and one that waits.
abbrev pub attesting : Validator
attesting = record {
  pubkey = 7;
  index = 0;
  withdrawal_credentials = 1;
  balance = 32_000_000_000;
  status = bytes "active_ongoing";
  effective_balance = 32_000_000_000;
  slashed = false;
  activation_eligibility_epoch = 0xffffffffffffffff;
  activation_epoch = 0xffffffffffffffff;
  exit_epoch = 0xffffffffffffffff;
  withdrawable_epoch = 0xffffffffffffffff;
}

abbrev pub waiting : Validator
waiting = record {
  pubkey = 8;
  index = 1;
  withdrawal_credentials = 1;
  balance = 32_000_000_000;
  status = bytes "pending_initialized";
  effective_balance = 32_000_000_000;
  slashed = false;
  activation_eligibility_epoch = 0xffffffffffffffff;
  activation_epoch = 0xffffffffffffffff;
  exit_epoch = 0xffffffffffffffff;
  withdrawable_epoch = 0xffffffffffffffff;
}

abbrev pub some_deposit : Deposit
some_deposit = record {
  pubkey = 9;
  withdrawal_credentials = 1;
  amount = 1;
  signature = 0;
  slot = 3;
}

abbrev pub heap : Heap
heap = record {
  next = 2;
  validator = λ p. if nat_beq p 0 then attesting else waiting;
  deposit = λ _. some_deposit;
}

abbrev pub database : Database
database = record {
  validators = 0 ∷ 1 ∷ [];
  pending_deposits = 4 ∷ [];
  validator_pubkey_map = (7, 0) ∷ (8, 1) ∷ [];
  execution_block_map = (0, 0) ∷ [];
  current_slot = 1;
  highest_slot = 3;
  next_execution_block_index = 1;
}

abbrev pub manager : BeaconMockManager
manager = record { database = database; config = config; snapshots = [] }

abbrev pub node : Node
node = record { manager = manager; heap = heap }

pub database-IsValid : IsValid database heap
unfolding lookup find
database-IsValid = record {
  allocated = (omega arith, (omega arith, tt));
  indexed = (refl, (refl, tt));
  distinct = (refl, (refl, tt));
  mapped = λ k. refl;
  synced = omega arith;
}

pub node-IsValid : IsValidNode node
unfolding lookup
node-IsValid = record { current = database-IsValid; saved = λ name s e. cc }

pub differ : (s t : Text) → text_beq s t ≡ false → s ≢ t
differ s t e = λ same. ground (arith, text_beq_iff s t, e, same)

pub core-DistinctStates : DistinctStates core
unfolding text_beq
core-DistinctStates = record {
  slashed_ongoing = differ core.active_slashed core.active_ongoing refl;
  slashed_exiting = differ core.active_slashed core.active_exiting refl;
  pending_ongoing = differ core.pending_initialized core.active_ongoing refl;
  pending_exiting = differ core.pending_initialized core.active_exiting refl;
}
