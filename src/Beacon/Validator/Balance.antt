-- ===== src/Beacon/Validator/Balance.antt =====
-- How `SetBalance` of beacon/db/validator.go moves the effective balance.
use osha.Base.{ℕ, ◌+◌, ◌-◌, ◌≤◌, ◌<◌, ◌≡◌, arith, ltb, if◌then◌else◌, u64_mod}
use osha.Beacon.Validator.{Validator, set_balance}

-- Hysteresis: for an effective balance that is at least 250_000_000 and that stays below 2^64 with
-- 1_250_000_000 added, `set_balance b` stores the balance `b`; the effective balance loses one gwei
-- if `b` is more than 250_000_000 below it, gains one if `b` is more than 1_250_000_000 above it,
-- and is unchanged otherwise.
pub set_balance_hysteresis :
    (b : ℕ) (v : Validator)
    → 250_000_000 ≤ v.effective_balance
    → v.effective_balance + 1_250_000_000 < u64_mod
    → ((set_balance b v).balance ≡ b)
      × ((set_balance b v).effective_balance ≡ (
          if ltb (b + 250_000_000) v.effective_balance
          then v.effective_balance - 1
          else if ltb (v.effective_balance + 1_250_000_000) b
          then v.effective_balance + 1
          else v.effective_balance))
unfolding set_balance
set_balance_hysteresis b v lo hi = ground arith

-- The lower threshold wraps around: a positive effective balance under 250_000_000 loses one gwei
-- at every balance up to 1_249_999_999 above it, also at one that is not below it.
pub set_balance_wraps :
    (b : ℕ) (v : Validator)
    → 0 < v.effective_balance
    → v.effective_balance < 250_000_000
    → b ≤ v.effective_balance + 1_249_999_999
    → (set_balance b v).effective_balance ≡ v.effective_balance - 1
unfolding set_balance
set_balance_wraps b v pos low hb = ground arith
