-- ===== src/TestManager/Drift.antt =====
-- `AdvanceSlots` of test-manager.go where Hardhat may fail: how far the two chains drift apart.
use osha.Base.{
  ℕ, zero, suc, ◌+◌, ◌≤◌, ◌≡◌, ◌⊎◌, inl, inr, refl, ap, true, some, Outcome, ok, fail, arith,
  Option-cases,
}
use osha.Beacon.Database.Slots.{commit_all}
use osha.Beacon.Manager
use osha.TestManager.{
  Hardhat, TestManager, TestError, no_mining, no_time_increase, commit_block, commit_blocks,
}
use osha.TestManager.Advancing.{slots_of}

-- What Hardhat documents of the two calls where they succeed: mining adds a block, and increasing
-- the time adds none.
pub record Counts {H : Type 0} (rpc : Hardhat H) (height : H → ℕ) : Type 0 where
  pub mines : (h h' : H) → rpc.evm_mine h ≡ some h' → height h' ≡ height h + 1
  pub increases : (s : ℕ) (h h' : H) → rpc.evm_increase_time s h ≡ some h' → height h' ≡ height h

module _ {H S : Type 0} (rpc : Hardhat H) (height : H → ℕ) (counts : Counts rpc height) where
  -- Success after all the slots, or an error after some of them.
  abbrev pub Ended :
      ℕ → ℕ → TestManager H S → Outcome TestError (Unit {0}) × TestManager H S → Type 0
  Ended slots k m r =
      ((r.0 ≡ ok tt) × (k ≡ slots) × (height r.1.hardhat ≡ height m.hardhat + k))
      ⊎ ((e : TestError) × (r.0 ≡ fail e)
          × ((height r.1.hardhat ≡ height m.hardhat + k)
              ⊎ (height r.1.hardhat ≡ height m.hardhat + k + 1)))

  later :
      (slots k : ℕ) (m next : TestManager H S) (r : Outcome TestError (Unit {0}) × TestManager H S)
      → height next.hardhat ≡ height m.hardhat + 1
      → Ended slots k next r
      → Ended (suc slots) (suc k) m r
  later slots k m next r up (inl (done, all, h)) = inl (done, ap suc all, omega (arith, up, h))
  later slots k m next r up (inr (e, failed, inl h)) = inr (e, failed, inl (omega (arith, up, h)))
  later slots k m next r up (inr (e, failed, inr h)) = inr (e, failed, inr (omega (arith, up, h)))

  -- Committing blocks for some slots succeeds or returns an error. The Beacon chain has then got a
  -- block for each of the first `k` slots, which are all of them after a success; and Hardhat has
  -- mined `k` blocks, or, after an error, perhaps one more.
  pub commit_blocks_lem :
      (slots : ℕ) (m : TestManager H S)
      → let r = commit_blocks rpc slots m in
        (k : ℕ) × (k ≤ slots)
        × (r.1.beacon_mock_manager ≡ record m.beacon_mock_manager {
          database = commit_all (slots_of k true) m.beacon_mock_manager.database;
        })
        × Ended slots k m r
  unfolding commit_blocks commit_block Manager.commit_block
  commit_blocks_lem zero m = (0, omega arith, refl, inl (refl, refl, omega arith))
  commit_blocks_lem (suc slots) m = elim (Option-cases (rpc.evm_mine m.hardhat)) [
    | inl e ↦
        rw (e, commit_blocks, commit_block)
          (0, omega arith, refl, inr (no_mining, refl, inl (omega arith)))
    | inr (h, e) ↦
        elim (Option-cases
          (rpc.evm_increase_time m.beacon_mock_manager.config.seconds_per_slot h)) [
            | inl f ↦
                rw (e, f, commit_blocks, commit_block)
                  (
                    0,
                    omega arith,
                    refl,
                    inr (no_time_increase, refl, inr (omega (arith, counts.mines m.hardhat h e))),
                  )
            | inr (h', f) ↦
                let next : TestManager H S = record m {
                  beacon_mock_manager = Manager.commit_block true m.beacon_mock_manager;
                  hardhat = h';
                } in
                let (k, le, beacon, end) = commit_blocks_lem slots next in
                rw (e, f, commit_blocks, commit_block)
                  (
                    suc k,
                    omega arith,
                    beacon,
                    later slots k m next (commit_blocks rpc slots next)
                        (omega (arith, counts.mines m.hardhat h e, counts.increases _ h h' f)) end,
                  )
          ]
  ]
