-- ===== src/TestManager/Advancing.antt =====
-- `AdvanceSlots` of test-manager.go: the two chains move on together.
use osha.Base.{
  ℕ, zero, suc, ◌+◌, ◌*◌, ◌%◌, ◌<◌, ◌≡◌, refl, Bool, true, false, List, [], ◌∷◌, some, Outcome, ok,
  arith, u64_mod, if◌then◌else◌,
}
use osha.Beacon.Database.Slots.{commit_all}
use osha.Beacon.Manager
use osha.Beacon.Manager.{BeaconMockManager}
use osha.TestManager.{
  Hardhat, TestManager, TestError, commit_block, commit_blocks, miss_slots, advance_slots, call,
  hardhat_increase_time,
}

-- `n` slots of one kind.
abbrev pub slots_of : ℕ → Bool → List Bool
slots_of zero b = []
slots_of (suc n) b = b ∷ slots_of n b

-- What Hardhat documents of the two calls: mining adds a block, and increasing the time adds to the
-- offset of its clock; both succeed.
pub record IsWorking {H : Type 0} (rpc : Hardhat H) (height offset : H → ℕ) : Type 0 where
  pub mines :
      (h : H)
      → (h' : H) × (rpc.evm_mine h ≡ some h') × (height h' ≡ height h + 1) × (offset h' ≡ offset h)
  pub increases :
      (s : ℕ) (h : H)
      → (h' : H) × (rpc.evm_increase_time s h ≡ some h')
        × (height h' ≡ height h)
        × (offset h' ≡ offset h + s)

longer : (s n : ℕ) → s * suc n ≡ s + s * n
longer s n = omega arith

without_blocks :
    (slots : ℕ) (b : BeaconMockManager)
    → miss_slots slots b ≡ record b { database = commit_all (slots_of slots false) b.database }
unfolding miss_slots Manager.commit_block
without_blocks zero b = refl
without_blocks (suc slots) b = without_blocks slots (Manager.commit_block false b)

module _ {H S : Type 0} (rpc : Hardhat H) (height offset : H → ℕ)
    (works : IsWorking rpc height offset) where
  -- The node after some slots, and Hardhat with so many more blocks and so much more time.
  abbrev pub Advanced :
      ℕ → Bool → TestManager H S → ℕ → Outcome TestError (Unit {0}) × TestManager H S → Type 0
  Advanced slots b m blocks r =
      (r.0 ≡ ok tt)
      × (r.1.beacon_mock_manager ≡ record m.beacon_mock_manager {
        database = commit_all (slots_of slots b) m.beacon_mock_manager.database;
      })
      × (height r.1.hardhat ≡ height m.hardhat + blocks)
      × (offset r.1.hardhat
          ≡ offset m.hardhat + m.beacon_mock_manager.config.seconds_per_slot * slots)

  -- The state after a committed block, for the state of Hardhat.
  abbrev block_committed : TestManager H S → H → TestManager H S
  block_committed m h = record m {
    beacon_mock_manager = Manager.commit_block true m.beacon_mock_manager;
    hardhat = h;
  }

  committed :
      (m : TestManager H S)
      → (h : H) × (commit_block rpc m ≡ (ok tt, block_committed m h))
        × (height h ≡ height m.hardhat + 1)
        × (offset h ≡ offset m.hardhat + m.beacon_mock_manager.config.seconds_per_slot)
  unfolding commit_block
  committed m =
      let seconds = m.beacon_mock_manager.config.seconds_per_slot in
      let (h, e, up, same) = works.mines m.hardhat in
      let (h', e', same', up') = works.increases seconds h in
      (h', rw (e, e', commit_block), omega (arith, up, same'), omega (arith, same, up'))

  with_blocks :
      (slots : ℕ) (m : TestManager H S) → Advanced slots true m slots (commit_blocks rpc slots m)
  unfolding commit_blocks Manager.commit_block
  with_blocks zero m = (refl, refl, omega arith, omega arith)
  with_blocks (suc slots) m =
      let (h, e, up, later) = committed m in
      let (done, beacon, up', later') = with_blocks slots (block_committed m h) in
      rw (e, commit_blocks)
        (
          done,
          beacon,
          omega (arith, up, up'),
          omega (arith, later, later', longer m.beacon_mock_manager.config.seconds_per_slot slots),
        )

  -- With a Hardhat that works, advancing by some slots succeeds. The Beacon chain gets one slot after
  -- the other, each with a block or each without, as was asked for; Hardhat mines a block for each
  -- slot or none; and its time moves on by the duration of the slots, in both cases, as long as that
  -- is under 2^64 seconds.
  pub advance_slots_lem :
      (slots : ℕ) (b : Bool) (m : TestManager H S)
      → m.beacon_mock_manager.config.seconds_per_slot * slots < u64_mod
      → Advanced slots b m (if b then slots else 0) (advance_slots rpc slots b m)
  unfolding advance_slots hardhat_increase_time call
  advance_slots_lem slots true m fits = with_blocks slots m
  advance_slots_lem slots false m fits =
      let seconds = m.beacon_mock_manager.config.seconds_per_slot * slots in
      let (h, e, same, up) = works.increases seconds m.hardhat in
      let small : seconds % u64_mod ≡ seconds = omega arith in
      rw (without_blocks slots m.beacon_mock_manager, small, e, hardhat_increase_time, call)
        (refl, refl, omega (arith, same), up)
