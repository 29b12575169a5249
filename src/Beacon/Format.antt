-- ===== src/Beacon/Format.antt =====
-- The formats of the Beacon API: `GetValidatorMeta` of beacon/db/validator.go and
-- `ConvertToNativeFormat` of beacon/db/deposit.go. The response types are records of the package
-- node-manager-core; a `utils.Uinteger` is the uint64 in it.
use osha.Base.{ℕ, Bool, Text}
use osha.Go.Strconv.{format_uint}
use osha.Beacon.Validator.{Validator}
use osha.Beacon.Deposit.{Deposit}

pub record ValidatorMeta : Type 0 where
  pub index : Text
  pub balance : ℕ
  pub status : Text
  pub pubkey : ℕ
  pub withdrawal_credentials : ℕ
  pub effective_balance : ℕ
  pub slashed : Bool
  pub activation_eligibility_epoch : ℕ
  pub activation_epoch : ℕ
  pub exit_epoch : ℕ
  pub withdrawable_epoch : ℕ

unfoldable pub get_validator_meta : Validator → ValidatorMeta
get_validator_meta v = record {
  index = format_uint v.index;
  balance = v.balance;
  status = v.status;
  pubkey = v.pubkey;
  withdrawal_credentials = v.withdrawal_credentials;
  effective_balance = v.effective_balance;
  slashed = v.slashed;
  activation_eligibility_epoch = v.activation_eligibility_epoch;
  activation_epoch = v.activation_epoch;
  exit_epoch = v.exit_epoch;
  withdrawable_epoch = v.withdrawable_epoch;
}

pub record PendingDeposit : Type 0 where
  pub pubkey : ℕ
  pub withdrawal_credentials : ℕ
  pub amount : ℕ
  pub signature : ℕ
  pub slot : ℕ

unfoldable pub convert_to_native_format : Deposit → PendingDeposit
convert_to_native_format d = record {
  pubkey = d.pubkey;
  withdrawal_credentials = d.withdrawal_credentials;
  amount = d.amount;
  signature = d.signature;
  slot = d.slot;
}
