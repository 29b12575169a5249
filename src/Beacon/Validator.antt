-- ===== src/Beacon/Validator.antt =====
-- beacon/db/validator.go and settings.go: a validator and what is done to it.
pub mod Balance
pub mod Slashing
use osha.Base.{
  ℕ, ◌≡◌, Bool, false, true, ◌&&◌, not, Text, text_beq, Outcome, ok, fail, ltb, add64, sub64,
  if◌then◌else◌,
}
use osha.Beacon.External.{ValidatorState, Packages}

abbrev pub far_future_epoch : ℕ
far_future_epoch = 0xffffffffffffffff

abbrev pub starting_balance : ℕ
starting_balance = 32_000_000_000

pub record Validator : Type 0 where
  pub pubkey : ℕ
  pub index : ℕ
  pub withdrawal_credentials : ℕ
  pub balance : ℕ
  pub status : ValidatorState
  pub effective_balance : ℕ
  pub slashed : Bool
  pub activation_eligibility_epoch : ℕ
  pub activation_epoch : ℕ
  pub exit_epoch : ℕ
  pub withdrawable_epoch : ℕ

-- The error of `Slash` names the validator by its public key.
pub data SlashError : Type 0 where
  not_slashable : ℕ → SlashError

unfoldable pub new_validator : Packages → ℕ → ℕ → ℕ → Validator
new_validator core pubkey withdrawal_credentials index = record {
  pubkey = pubkey;
  index = index;
  withdrawal_credentials = withdrawal_credentials;
  balance = starting_balance;
  status = core.pending_initialized;
  effective_balance = starting_balance;
  slashed = false;
  activation_eligibility_epoch = far_future_epoch;
  activation_epoch = far_future_epoch;
  exit_epoch = far_future_epoch;
  withdrawable_epoch = far_future_epoch;
}

-- The two tests of `SetBalance`, the second on what the first has left.
abbrev lower_effective : ℕ → ℕ → ℕ
lower_effective balance effective =
    if ltb balance (sub64 effective 250_000_000) then sub64 effective 1 else effective

abbrev raise_effective : ℕ → ℕ → ℕ
raise_effective balance effective =
    if ltb (add64 effective 1_250_000_000) balance then add64 effective 1 else effective

unfoldable pub set_balance : ℕ → Validator → Validator
set_balance balance_gwei v = record v {
  balance = balance_gwei;
  effective_balance =
      raise_effective balance_gwei (lower_effective balance_gwei v.effective_balance);
}

unfoldable pub set_status : ValidatorState → Validator → Validator
set_status status v = record v { status = status }

-- The three writes of `Slash`, past its test.
unfoldable pub punish : Packages → ℕ → Validator → Validator
unfolding set_balance
punish core penalty_gwei v =
    record (set_balance (sub64 v.balance penalty_gwei) (record v { slashed = true })) {
      status = core.active_slashed;
    }

unfoldable pub slash : Packages → ℕ → Validator → Outcome SlashError Validator
unfolding punish
slash core penalty_gwei v =
    if not (text_beq v.status core.active_ongoing) && not (text_beq v.status core.active_exiting)
    then fail (not_slashable v.pubkey)
    else ok (punish core penalty_gwei v)

unfoldable pub clone : Validator → Validator
clone v = record {
  pubkey = v.pubkey;
  index = v.index;
  withdrawal_credentials = v.withdrawal_credentials;
  balance = v.balance;
  status = v.status;
  effective_balance = v.effective_balance;
  slashed = v.slashed;
  activation_eligibility_epoch = v.activation_eligibility_epoch;
  activation_epoch = v.activation_epoch;
  exit_epoch = v.exit_epoch;
  withdrawable_epoch = v.withdrawable_epoch;
}
