-- ===== src/Beacon/External.antt =====
-- What beacon/ takes from the packages node-manager-core and go-ethereum: the four states of a
-- validator that the code names, the length of a public key in bytes, and the parsers of public
-- keys, hashes, addresses and bytes. Keys, hashes, addresses and signatures are arrays of a fixed
-- length, kept as the number that their bytes spell.
use osha.Base.{ℕ, Text, Option, ◌≢◌}

abbrev pub ValidatorState : Type 0
ValidatorState = Text

pub record Packages : Type 0 where
  pub pending_initialized : ValidatorState
  pub active_ongoing : ValidatorState
  pub active_exiting : ValidatorState
  pub active_slashed : ValidatorState
  pub validator_pubkey_length : ℕ
  pub hex_to_validator_pubkey : Text → Option ℕ
  pub hex_to_hash : Text → ℕ
  pub hex_to_address : Text → ℕ
  pub from_hex : Text → Text

-- The Beacon API gives its states different names.
pub record DistinctStates (core : Packages) : Type 0 where
  pub slashed_ongoing : core.active_slashed ≢ core.active_ongoing
  pub slashed_exiting : core.active_slashed ≢ core.active_exiting
  pub pending_ongoing : core.pending_initialized ≢ core.active_ongoing
  pub pending_exiting : core.pending_initialized ≢ core.active_exiting
