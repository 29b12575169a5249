-- ===== src/Beacon/Examples/Validators.antt =====
-- The theorems about beacon/db/validator.go, config.go and the ids at the small node.
use osha.Base.{
  ◌≡◌, ◌↔◌, refl, true, some, none, bytes, text_beq, ok, fail, arith, if◌then◌else◌, ltb, ◌+◌, ◌-◌,
  u64_mod,
}
use osha.Beacon.Validator.{Validator, not_slashable, set_balance, set_status, slash, punish}
use osha.Beacon.Validator.Balance.{set_balance_hysteresis}
use osha.Beacon.Validator.Slashing.{slash_twice, slash_wraps}
use osha.Beacon.Config.{Files, zero_config, new_default_config, clone_config}
use osha.Beacon.Config.Loading.{clone_config_lem}
use osha.Beacon.Examples.{core, clock, config, attesting, core-DistinctStates}

-- A fall of one ETH is more than the quarter that moves the effective balance.
set_balance_hysteresis_example :
    ((set_balance 31_000_000_000 attesting).balance ≡ 31_000_000_000)
    × ((set_balance 31_000_000_000 attesting).effective_balance ≡ (
        if ltb (31_000_000_000 + 250_000_000) 32_000_000_000
        then 32_000_000_000 - 1
        else if ltb (32_000_000_000 + 1_250_000_000) 31_000_000_000
        then 32_000_000_000 + 1
        else 32_000_000_000))
set_balance_hysteresis_example =
    set_balance_hysteresis 31_000_000_000 attesting (omega arith) (omega arith)

abbrev poor : Validator
poor = record attesting { balance = 100; effective_balance = 100 }

slash_twice_example :
    let later = record (punish core 5 attesting) { balance = 7 } in
    (slash core 6 later ≡ fail (not_slashable 7))
    × ((x : Validator) × (slash core 6 (set_status core.active_ongoing later) ≡ ok x)
        × (x.slashed ≡ true)
        × (x.status ≡ core.active_slashed))
unfolding slash text_beq
slash_twice_example =
    slash_twice core core-DistinctStates 5 6 attesting (punish core 5 attesting)
      (record (punish core 5 attesting) { balance = 7 }) refl refl

slash_wraps_example : (punish core 101 poor).balance ≡ u64_mod - (101 - 100)
unfolding slash text_beq
slash_wraps_example =
    slash_wraps core 101 poor (punish core 101 poor) (omega arith) (omega arith) refl

clone_config_lem_example :
    (clone_config config ≡ record config { first_execution_block_index = 0 })
    × ((clone_config config ≡ config) ↔ (config.first_execution_block_index ≡ 0))
    × (clone_config (new_default_config core clock) ≡ new_default_config core clock)
clone_config_lem_example = clone_config_lem core clock config

-- A file that sets nothing.
abbrev files : Files
files = record {
  exists = λ _. true;
  read_file = λ _. some (bytes "{}");
  unmarshal_json = λ _. some zero_config;
  unmarshal_yaml = λ _. none;
}
