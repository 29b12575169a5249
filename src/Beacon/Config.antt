-- ===== src/Beacon/Config.antt =====
-- beacon/db/config.go: the configuration of the mock.
pub mod Loading
use osha.Base.{
  ℕ, Bool, ◌&&◌, ◌||◌, [], ◌∷◌, Option, none, some, Text, bytes, text_beq, Outcome, ok, fail,
  nat_beq, if◌then◌else◌,
}
use osha.Beacon.External.{Packages}

-- time.Time: the seconds since the year 1, and the nanoseconds in the second.
pub record Time : Type 0 where
  pub seconds : ℕ
  pub nanoseconds : ℕ

abbrev pub is_zero : Time → Bool
is_zero t = nat_beq t.seconds 0 && nat_beq t.nanoseconds 0

abbrev pub truncate_to_second : Time → Time
truncate_to_second t = record t { nanoseconds = 0 }

pub record Config : Type 0 where
  pub chain_id : ℕ
  pub seconds_per_slot : ℕ
  pub slots_per_epoch : ℕ
  pub epochs_per_sync_committee_period : ℕ
  pub deposit_contract : ℕ
  pub genesis_time : Time
  pub genesis_fork_version : Text
  pub genesis_validators_root : Text
  pub altair_fork_version : Text
  pub altair_fork_epoch : ℕ
  pub bellatrix_fork_version : Text
  pub bellatrix_fork_epoch : ℕ
  pub capella_fork_version : Text
  pub capella_fork_epoch : ℕ
  pub deneb_fork_version : Text
  pub deneb_fork_epoch : ℕ
  pub first_execution_block_index : ℕ

abbrev pub default_chain_id : ℕ
default_chain_id = 31337

abbrev pub default_deposit_contract_address_string : Text
default_deposit_contract_address_string = bytes "0xde905175eeeeeeeeeeeeeeeeeeeeeeeeeeeeeeee"

-- `now` is the time of the call.
unfoldable pub new_default_config : Packages → Time → Config
new_default_config core now = record {
  chain_id = default_chain_id;
  deposit_contract = core.hex_to_address default_deposit_contract_address_string;
  seconds_per_slot = 12;
  slots_per_epoch = 32;
  epochs_per_sync_committee_period = 256;
  genesis_time = truncate_to_second now;
  genesis_fork_version = core.from_hex (bytes "0x90de5e70");
  genesis_validators_root =
      core.from_hex (bytes "0x90de5e70615a7f7115e2b6aac319c03529df8242ae705fba9df39b79c59fa8b0");
  altair_fork_version = core.from_hex (bytes "0x90de5e71");
  altair_fork_epoch = 0;
  bellatrix_fork_version = core.from_hex (bytes "0x90de5e72");
  bellatrix_fork_epoch = 0;
  capella_fork_version = core.from_hex (bytes "0x90de5e73");
  capella_fork_epoch = 0;
  deneb_fork_version = core.from_hex (bytes "0x90de5e74");
  deneb_fork_epoch = 0;
  first_execution_block_index = 0;
}

-- `var config Config`
abbrev pub zero_config : Config
zero_config = record {
  chain_id = 0;
  deposit_contract = 0;
  seconds_per_slot = 0;
  slots_per_epoch = 0;
  epochs_per_sync_committee_period = 0;
  genesis_time = record { seconds = 0; nanoseconds = 0 };
  genesis_fork_version = [];
  genesis_validators_root = [];
  altair_fork_version = [];
  altair_fork_epoch = 0;
  bellatrix_fork_version = [];
  bellatrix_fork_epoch = 0;
  capella_fork_version = [];
  capella_fork_epoch = 0;
  deneb_fork_version = [];
  deneb_fork_epoch = 0;
  first_execution_block_index = 0;
}

-- What `LoadFromFile` asks of the file system and of the two decoders. A decoder starts from the
-- zero configuration; `none` is an error.
pub record Files : Type 0 where
  pub exists : Text → Bool
  pub read_file : Text → Option Text
  pub unmarshal_json : Text → Option Config
  pub unmarshal_yaml : Text → Option Config

pub data ConfigError : Type 0 where
  does_not_exist cannot_read cannot_unmarshal : Text → ConfigError

-- filepath.Ext: what follows the last dot of the last element, the dot with it. `ext` is the
-- suffix found so far.
abbrev extension : Text → Text → Text
extension ext [] = ext
extension ext (c ∷ s) =
    extension (if nat_beq c b'/' then [] else if nat_beq c b'.' then c ∷ s else ext) s

decode : Files → Text → Text → Option Config
decode files path content =
    if text_beq (extension [] path) (bytes ".json")
    then files.unmarshal_json content
    else if text_beq (extension [] path) (bytes ".yaml")
        || text_beq (extension [] path) (bytes ".yml")
    then files.unmarshal_yaml content
    else some zero_config

with_genesis_time : Time → Config → Config
with_genesis_time now config =
    if is_zero config.genesis_time
    then record config { genesis_time = truncate_to_second now }
    else config

unfoldable pub load_from_file : Files → Time → Text → Outcome ConfigError Config
unfolding decode with_genesis_time
load_from_file files now path =
    if files.exists path
    then elim (files.read_file path) [
      | none ↦ fail (cannot_read path)
      | some content ↦ elim (decode files path content) [
        | none ↦ fail (cannot_unmarshal path)
        | some config ↦ ok (with_genesis_time now config)
      ]
    ]
    else fail (does_not_exist path)

unfoldable pub clone_config : Config → Config
clone_config c = record {
  chain_id = c.chain_id;
  seconds_per_slot = c.seconds_per_slot;
  slots_per_epoch = c.slots_per_epoch;
  epochs_per_sync_committee_period = c.epochs_per_sync_committee_period;
  deposit_contract = c.deposit_contract;
  genesis_time = c.genesis_time;
  genesis_fork_version = c.genesis_fork_version;
  genesis_validators_root = c.genesis_validators_root;
  altair_fork_version = c.altair_fork_version;
  altair_fork_epoch = c.altair_fork_epoch;
  bellatrix_fork_version = c.bellatrix_fork_version;
  bellatrix_fork_epoch = c.bellatrix_fork_epoch;
  capella_fork_version = c.capella_fork_version;
  capella_fork_epoch = c.capella_fork_epoch;
  deneb_fork_version = c.deneb_fork_version;
  deneb_fork_epoch = c.deneb_fork_epoch;
  first_execution_block_index = 0;
}
