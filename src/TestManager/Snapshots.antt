-- ===== src/TestManager/Snapshots.antt =====
-- test-manager.go: snapshots of all services and of the modules of module.go, and what is built on
-- them. A module is a pointer with its state outside; it is an argument, as Hardhat is.
pub mod Services
pub mod Returning
use osha.Base.{
  ℕ, Bool, true, false, if◌then◌else◌, List, [], ◌∷◌, Option, none, some, Text, text_eq, text_beq,
  nat_eq, Dict, lookup, insert, Outcome, ok, fail, panic,
}
use osha.Beacon.Config.{Config}
use osha.Beacon.Manager
use osha.Beacon.Manager.{new_beacon_mock_manager}
use osha.Docker.{Codecs}
use osha.Docker.Manager as DockerManager
use osha.Docker.Manager.{new_docker_mock_manager}
use osha.Filesystem
use osha.Filesystem.{System, FilesystemManager}
use osha.TestManager.{
  Hardhat, Snapshot, TestManager, TestError, no_evm_snapshot, no_evm_revert, no_name, no_snapshot,
  no_hardhat_snapshot, beacon_error, docker_error, file_error, module_error,
}

-- `IOshaModule`, for all modules.
pub record Modules (H S : Type 0) : Type 0 where
  pub get_module_name : ℕ → Text
  pub take_module_snapshot : ℕ → H → Option S × H
  pub revert_module_to_snapshot : S → ℕ → H → Bool × H

-- A method: its result and the manager, which stays as far as the method got.
abbrev pub Method : Type 0 → Type 0 → Type 0 → Type 0
Method H S A = TestManager H S → Outcome TestError A × TestManager H S

module _ {H S : Type 0} where
  -- `if err != nil { return ... }`
  unfoldable pub proceed :
      {A B : Type 0}
      → Outcome TestError A × TestManager H S
      → (A → Method H S B)
      → Outcome TestError B × TestManager H S
  proceed (ok a, m) g = g a m
  proceed (fail e, m) g = (fail e, m)
  proceed (panic, m) g = (panic, m)

  infixl 5 ◌>>=◌ ◌>>◌
  abbrev pub ◌>>=◌ : {A B : Type 0} → Method H S A → (A → Method H S B) → Method H S B
  ◌>>=◌ f g m = proceed (f m) g

  abbrev pub ◌>>◌ : {B : Type 0} → Method H S (Unit {0}) → Method H S B → Method H S B
  f >> g = f >>= λ _. g

-- `for { candidateName := uuid.New().String() ... }`: the identifiers in the order in which they are
-- drawn, up to one that is new.
unfoldable pub new_name : {S : Type 0} → List Text → Dict Text (Snapshot S) → Option Text
new_name [] snapshots = none
new_name (candidate ∷ candidates) snapshots =
    let rest = new_name candidates snapshots in
    elim (lookup candidate snapshots) [ none ↦ some candidate | some _ ↦ rest ]

module _ {H S : Type 0} (rpc : Hardhat H) where
  -- `evm_snapshot`, whose name is kept under the snapshot's.
  unfoldable pub snapshot_hardhat : Text → Method H S (Unit {0})
  snapshot_hardhat name m = elim (rpc.evm_snapshot m.hardhat) [
    | none ↦ (fail no_evm_snapshot, m)
    | some (id, h) ↦ (
      ok tt,
      record m { hardhat = h; hardhat_snapshot_map = insert name id m.hardhat_snapshot_map },
    )
  ]

  unfoldable pub revert_hardhat : Text → Method H S (Unit {0})
  revert_hardhat name m = elim (lookup name m.hardhat_snapshot_map) [
    | none ↦ (fail (no_hardhat_snapshot name), m)
    | some id ↦ elim (rpc.evm_revert id m.hardhat) [
      | none ↦ (fail no_evm_revert, m)
      | some h ↦ (ok tt, record m { hardhat = h })
    ]
  ]

module _ {H S : Type 0} where
  unfoldable pub snapshot_beacon : Text → Method H S (Unit {0})
  unfolding Manager.take_snapshot
  snapshot_beacon name m =
      let (manager, heap) = Manager.take_snapshot name m.beacon_mock_manager m.heap in
      (ok tt, record m { beacon_mock_manager = manager; heap = heap })

  unfoldable pub revert_beacon : Text → Method H S (Unit {0})
  revert_beacon name m =
      let (r, manager, heap) = Manager.revert_to_snapshot name m.beacon_mock_manager m.heap in
      let m' = record m { beacon_mock_manager = manager; heap = heap } in
      elim r [ ok _ ↦ (ok tt, m') | fail e ↦ (fail (beacon_error e), m') | panic ↦ (panic, m') ]

  unfoldable pub snapshot_docker : Codecs → Text → Method H S (Unit {0})
  snapshot_docker codecs name m = elim (DockerManager.take_snapshot codecs name m.docker) [
    | ok docker ↦ (ok tt, record m { docker = docker })
    | fail e ↦ (fail (docker_error e), m)
    | panic ↦ (panic, m)
  ]

  unfoldable pub revert_docker : Codecs → Text → Method H S (Unit {0})
  revert_docker codecs name m = elim (DockerManager.revert_to_snapshot codecs name m.docker) [
    | ok docker ↦ (ok tt, record m { docker = docker })
    | fail e ↦ (fail (docker_error e), m)
    | panic ↦ (panic, m)
  ]

  unfoldable pub keep_files : Filesystem.Done → Method H S (Unit {0})
  keep_files (r, files, disk) m =
      let m' = record m { fs_manager = files; disk = disk } in
      elim r [ ok _ ↦ (ok tt, m') | fail e ↦ (fail (file_error e), m') | panic ↦ (panic, m') ]

  -- A method of the manager of the filesystem.
  unfoldable pub with_files :
      (FilesystemManager → Filesystem.Disk → Filesystem.Done) → Method H S (Unit {0})
  with_files f m = keep_files (f m.fs_manager m.disk) m

module _ {H S : Type 0} (modules : Modules H S) where
  -- The loop goes on with `rest` after what a module gave.
  unfoldable pub module_taken :
      ℕ → Option S × H → Dict ℕ S → (Dict ℕ S → Method H S (Dict ℕ S)) → Method H S (Dict ℕ S)
  module_taken module_id (none, h) states rest m =
      (fail (module_error (modules.get_module_name module_id)), record m { hardhat = h })
  module_taken module_id (some s, h) states rest m =
      rest (insert module_id s states) (record m { hardhat = h })

  -- Their states, by the module.
  unfoldable pub snapshot_modules : Dict Text ℕ → Dict ℕ S → Method H S (Dict ℕ S)
  unfolding module_taken
  snapshot_modules [] states m = (ok states, m)
  snapshot_modules ((_, module_id) ∷ registered) states m =
      module_taken module_id (modules.take_module_snapshot module_id m.hardhat) states
        (snapshot_modules registered) m

  unfoldable pub module_reverted : ℕ → Bool × H → Method H S (Unit {0}) → Method H S (Unit {0})
  module_reverted module_id (true, h) rest m = rest (record m { hardhat = h })
  module_reverted module_id (false, h) rest m =
      (fail (module_error (modules.get_module_name module_id)), record m { hardhat = h })

  -- A module that the snapshot does not have is passed over.
  unfoldable pub revert_module : ℕ → Option S → Method H S (Unit {0}) → Method H S (Unit {0})
  unfolding module_reverted
  revert_module module_id none rest m = rest m
  revert_module module_id (some s) rest m =
      module_reverted module_id (modules.revert_module_to_snapshot s module_id m.hardhat) rest m

  unfoldable pub revert_modules : Dict Text ℕ → Dict ℕ S → Method H S (Unit {0})
  unfolding revert_module
  revert_modules [] states m = (ok tt, m)
  revert_modules ((_, module_id) ∷ registered) states m =
      revert_module module_id (lookup module_id states) (revert_modules registered states) m

  unfoldable pub register_module : ℕ → TestManager H S → TestManager H S
  register_module module_id m = record m {
    registered_modules = insert (modules.get_module_name module_id) module_id m.registered_modules;
  }

module _ {H S : Type 0} (rpc : Hardhat H) (codecs : Codecs) (system : System) where
  -- The services, in the order in which they are taken.
  unfoldable pub snapshot_services : Text → Method H S (Unit {0})
  snapshot_services name =
      snapshot_hardhat rpc name
      >> (snapshot_beacon name
          >> (snapshot_docker codecs name >> with_files (Filesystem.take_snapshot system name)))

  -- The services, in the order in which they are reverted.
  unfoldable pub revert_services : Text → Method H S (Unit {0})
  revert_services name =
      revert_hardhat rpc name
      >> (snapshot_hardhat rpc name
          >> (revert_beacon name
              >> (revert_docker codecs name
                  >> with_files (Filesystem.revert_to_snapshot system name))))

module _ {H S : Type 0} (rpc : Hardhat H) (modules : Modules H S) (codecs : Codecs)
    (system : System) where
  unfoldable pub create_snapshot : List Text → Method H S Text
  create_snapshot candidates m = elim (new_name candidates m.snapshots) [
    | none ↦ (fail no_name, m)
    | some name ↦
        (snapshot_services rpc codecs system name
            >> ((λ m'. snapshot_modules modules m'.registered_modules [] m') >>= λ states m'. (
              ok name,
              record m' {
                snapshots = insert name (record { name = name; states = states }) m'.snapshots;
              },
            )))
          m
  ]

  unfoldable pub revert_snapshot : Text → Method H S (Unit {0})
  revert_snapshot name m = elim (lookup name m.snapshots) [
    | none ↦ (fail (no_snapshot name), m)
    | some snapshot ↦
        (revert_services rpc codecs system name
            >> (λ m'. revert_modules modules m'.registered_modules snapshot.states m'))
          m
  ]

  unfoldable pub revert_to_baseline : Method H S (Unit {0})
  unfolding revert_snapshot
  revert_to_baseline m = revert_snapshot m.baseline_snapshot_id m

  -- `dependency` is the function of the test, and `snapshot_name` is nil or a name.
  unfoldable pub depends_on :
      (TestManager H S → TestManager H S) → Option Text → Method H S (Unit {0})
  unfolding revert_snapshot
  depends_on dependency none m = (ok tt, dependency m)
  depends_on dependency (some name) m =
      if text_beq name [] then (ok tt, dependency m) else revert_snapshot name m

  unfoldable pub close : Method H S (Unit {0})
  close = (λ m. revert_snapshot m.baseline_snapshot_id m) >> with_files (Filesystem.close system)
