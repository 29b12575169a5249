-- ===== src/Beacon/Deposit.antt =====
-- beacon/db/deposit.go: a deposit that waits to be processed.
use osha.Base.{ℕ}

pub record Deposit : Type 0 where
  pub pubkey : ℕ
  pub withdrawal_credentials : ℕ
  pub amount : ℕ
  pub signature : ℕ
  pub slot : ℕ
