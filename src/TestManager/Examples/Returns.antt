-- ===== src/TestManager/Examples/Returns.antt =====
-- A snapshot of all services of test-manager.go for a Hardhat that keeps its chains by a number.
use osha.Base.{
  ℕ, ◌+◌, ◌≡◌, refl, ◌∙◌, true, [], ◌∷◌, Option, none, some, Text, text_eq, text_beq, bytes, Dict,
  lookup, insert, delete, lookup-insert, ==-refl, ok,
}
use osha.Beacon.Database.View.{view}
use osha.Beacon.Examples as Beacon
use osha.Docker.Cloning.{observe}
use osha.Docker.Examples as Docker
use osha.Filesystem.{dir, end, find, find_snapshot, folder_mode}
use osha.Filesystem.Examples as Files
use osha.TestManager.{Hardhat, TestManager}
use osha.TestManager.Snapshots.{Modules, create_snapshot, revert_snapshot, new_name}
use osha.TestManager.Snapshots.Returning.{IsReady, HasKept, revert_snapshot-create_snapshot}
use osha.TestManager.Snapshots.Services.{Keeping, Quiet}
use osha.TestManager.Startup.{Network, Machine}

-- A chain and the chains that are held.
record Chains : Type 0 where
  chain : ℕ
  next : ℕ
  saved : Dict Text ℕ

abbrev revert_to : Text → Chains → Option ℕ → Option Chains
revert_to id h none = none
revert_to id h (some chain) = some (record h { chain = chain; saved = delete id h.saved })

-- A chain that is reverted to is held no longer.
abbrev rpc : Hardhat Chains
rpc = record {
  evm_mine = λ h. some (record h { chain = h.chain + 1 });
  evm_increase_time = λ s h. some h;
  evm_set_automine = λ b h. some h;
  evm_set_interval_mining = λ i h. some h;
  evm_snapshot = λ h.
      some
        (h.next ∷ [], record h { next = h.next + 1; saved = insert (h.next ∷ []) h.chain h.saved });
  evm_revert = λ id h. revert_to id h (lookup id h.saved);
}

abbrev chain_of : Chains → ℕ
chain_of h = h.chain

abbrev held : Text → Chains → Option ℕ
held id h = lookup id h.saved

rpc-Keeping : Keeping rpc chain_of held
rpc-Keeping = record {
  snapshots = λ h. (
    h.next ∷ [],
    record h { next = h.next + 1; saved = insert (h.next ∷ []) h.chain h.saved },
    refl,
    refl,
    lookup-insert (h.next ∷ []) (h.next ∷ []) h.chain h.saved ∙ rw (==-refl (h.next ∷ [])),
  );
  reverts = λ id h c e. (record h { chain = c; saved = delete id h.saved }, rw e, refl);
}

-- Modules whose states are their numbers.
abbrev modules : Modules Chains ℕ
modules = record {
  get_module_name = λ k. k ∷ [];
  take_module_snapshot = λ k h. (some k, h);
  revert_module_to_snapshot = λ s k h. (true, h);
}

modules-Quiet : Quiet modules chain_of held
modules-Quiet = record {
  takes = λ k h. (k, h, refl, refl, λ id. refl);
  reverts = λ s k h. (h, refl, refl);
}

abbrev manager : TestManager Chains ℕ
manager = record {
  beacon_mock_manager = Beacon.manager;
  heap = Beacon.heap;
  hardhat = record { chain = 7; next = 0; saved = [] };
  docker = Docker.docker;
  baseline_snapshot_id = [];
  fs_manager = Files.files;
  snapshots = [];
  hardhat_snapshot_map = [];
  registered_modules = (bytes "module", 1) ∷ [];
  disk = Files.disk_of Files.folder;
}

manager-IsReady : IsReady Docker.codecs Files.system (bytes "one") Files.folder manager
unfolding lookup text_beq find_snapshot find
manager-IsReady = record {
  valid = Beacon.node-IsValid;
  exportable = Docker.state-IsExportable;
  mode = 448;
  folder = refl;
  plain = (refl, tt, (refl, tt, tt));
  modes = (tt, ((refl, tt), tt));
  snapshot_mode = 448;
  snapshots = end;
  snapshot_folder = refl;
  free = refl;
}

new : new_name (bytes "one" ∷ []) manager.snapshots ≡ some (bytes "one")
unfolding new_name lookup
new = refl

revert_snapshot-create_snapshot_example :
    (taken : TestManager Chains ℕ) × (create_snapshot rpc modules Docker.codecs Files.system
        (bytes "one" ∷ [])
        manager
      ≡ (ok (bytes "one"), taken))
    × ((later : TestManager Chains ℕ)
        → HasKept Beacon.core Beacon.json held (bytes "one") taken later
        → (r : TestManager Chains ℕ) × (revert_snapshot rpc modules Docker.codecs Files.system
              (bytes "one")
              later
            ≡ (ok tt, r))
          × (r.hardhat.chain ≡ 7)
          × (view r.beacon_mock_manager.database r.heap
              ≡ record (view Beacon.database Beacon.heap) { deposits = [] })
          × (observe r.docker.state
              ≡ record (observe Docker.docker.state) { service_hashes = λ n. none })
          × (lookup (bytes "/t") r.disk ≡ some (dir folder_mode Files.folder)))
revert_snapshot-create_snapshot_example =
    revert_snapshot-create_snapshot rpc modules Docker.codecs Files.system Beacon.core Beacon.json
      chain_of held rpc-Keeping modules-Quiet Files.system-Permits (bytes "one" ∷ []) (bytes "one")
      Files.folder manager new manager-IsReady

abbrev network : Network Chains Text
network = record {
  dial_rpc = λ url. some manager.hardhat;
  dial_eth = λ url. some url;
  latest_header = λ client. some (9, 1700000000);
  chain_id = λ client. some 31337;
}

abbrev machine : Machine
machine = record {
  hardhat_url = some (bytes "http://localhost:8545");
  now = record { seconds = 0; nanoseconds = 0 };
  test_dir = some (bytes "/t");
  snapshot_dir = some (bytes "/s");
  candidates = bytes "one" ∷ [];
}
