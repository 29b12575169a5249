-- ===== src/TestManager/Snapshots/Services.antt =====
-- A snapshot of all services of test-manager.go, and a return to it.
use osha.Base.{
  ℕ, ◌≡◌, refl, ◌∙◌, [], ◌∷◌, Option, some, Text, text_eq, nat_eq, Dict, lookup, insert, ok, true,
  Option-cases, inl, inr,
}
use osha.Beacon.Manager
use osha.Beacon.Server.{Node}
use osha.Docker.{Codecs}
use osha.Docker.Manager as DockerManager
use osha.Docker.Manager.{DockerMockManager}
use osha.Filesystem
use osha.Filesystem.{System, Disk, FilesystemManager, Entries, dir, folder_mode, find_snapshot}
use osha.TestManager.{Hardhat, TestManager}
use osha.TestManager.Snapshots.{
  Modules, Method, ◌>>=◌, proceed, snapshot_services, snapshot_hardhat, revert_hardhat,
  snapshot_beacon, revert_beacon, snapshot_docker, revert_docker, with_files, keep_files,
  snapshot_modules, revert_modules, revert_services,
}

-- What Hardhat documents: a snapshot holds the chain of its time, and does not change it; a return to
-- a snapshot that is held brings its chain back.
pub record Keeping {H C : Type 0} (rpc : Hardhat H) (chain : H → C) (held : Text → H → Option C)
    : Type 0 where
  pub snapshots :
      (h : H)
      → (id : Text) × (h' : H) × (rpc.evm_snapshot h ≡ some (id, h'))
        × (chain h' ≡ chain h)
        × (held id h' ≡ some (chain h))
  pub reverts :
      (id : Text) (h : H) (c : C)
      → held id h ≡ some c
      → (h' : H) × (rpc.evm_revert id h ≡ some h') × (chain h' ≡ c)

-- Modules whose two operations succeed and leave the chain and its snapshots alone.
pub record Quiet {H S C : Type 0} (modules : Modules H S) (chain : H → C)
    (held : Text → H → Option C) : Type 0 where
  pub takes :
      (k : ℕ) (h : H)
      → (s : S) × (h' : H) × (modules.take_module_snapshot k h ≡ (some s, h'))
        × (chain h' ≡ chain h)
        × ((id : Text) → held id h' ≡ held id h)
  pub reverts :
      (s : S) (k : ℕ) (h : H)
      → (h' : H) × (modules.revert_module_to_snapshot s k h ≡ (true, h')) × (chain h' ≡ chain h)

abbrev pub node : {H S : Type 0} → TestManager H S → Node
node m = record { manager = m.beacon_mock_manager; heap = m.heap }

module _ {H S C : Type 0} (rpc : Hardhat H) (modules : Modules H S) (chain : H → C)
    (held : Text → H → Option C) (quiet : Quiet modules chain held) where
  -- The modules change only what is outside.
  pub modules_taken :
      (registered : Dict Text ℕ) (states : Dict ℕ S) (m : TestManager H S)
      → (all : Dict ℕ S) × (h : H) × (snapshot_modules modules registered states m
          ≡ (ok all, record m { hardhat = h }))
        × (chain h ≡ chain m.hardhat)
        × ((id : Text) → held id h ≡ held id m.hardhat)
  unfolding snapshot_modules
  modules_taken [] states m = (states, m.hardhat, refl, refl, λ id. refl)
  modules_taken ((name, k) ∷ registered) states m =
      let (s, h, e, same, holds) = quiet.takes k m.hardhat in
      let (all, h', e', same', holds') =
        modules_taken registered (insert k s states) (record m { hardhat = h }) in
      (all, h', rw e e', same' ∙ same, λ id. holds' id ∙ holds id)

  pub modules_reverted :
      (registered : Dict Text ℕ) (states : Dict ℕ S) (m : TestManager H S)
      → (h : H) × (revert_modules modules registered states m ≡ (ok tt, record m { hardhat = h }))
        × (chain h ≡ chain m.hardhat)
  unfolding revert_modules
  modules_reverted [] states m = (m.hardhat, refl, refl)
  modules_reverted ((name, k) ∷ registered) states m = elim (Option-cases (lookup k states)) [
    | inl f ↦ rw f (modules_reverted registered states m)
    | inr (s, f) ↦
        let (h, e, same) = quiet.reverts s k m.hardhat in
        let (h', e', same') = modules_reverted registered states (record m { hardhat = h }) in
        (h', rw (f, e) e', same' ∙ same)
  ]

module _ {H S : Type 0} where
  pub then_ok :
      {A B : Type 0} (f : Method H S A) (g : A → Method H S B) (m m' : TestManager H S) {a : A}
      → f m ≡ (ok a, m')
      → (f >>= g) m ≡ g a m'
  unfolding proceed
  then_ok f g m m' e = rw e

  snapshot_hardhat-ok :
      (rpc : Hardhat H) (name id : Text) (h : H) (m : TestManager H S)
      → rpc.evm_snapshot m.hardhat ≡ some (id, h)
      → snapshot_hardhat rpc name m ≡ (
        ok tt,
        record m { hardhat = h; hardhat_snapshot_map = insert name id m.hardhat_snapshot_map },
      )
  unfolding snapshot_hardhat
  snapshot_hardhat-ok rpc name id h m e = rw (e, snapshot_hardhat)

  revert_hardhat-ok :
      (rpc : Hardhat H) (name id : Text) (h : H) (m : TestManager H S)
      → lookup name m.hardhat_snapshot_map ≡ some id
      → rpc.evm_revert id m.hardhat ≡ some h
      → revert_hardhat rpc name m ≡ (ok tt, record m { hardhat = h })
  unfolding revert_hardhat
  revert_hardhat-ok rpc name id h m f e = rw (f, revert_hardhat, e)

  revert_beacon-ok :
      (name : Text) (m : TestManager H S)
      → let r = Manager.revert_to_snapshot name m.beacon_mock_manager m.heap in
        r.0 ≡ ok tt
        → revert_beacon name m ≡ (ok tt, record m { beacon_mock_manager = r.1; heap = r.2 })
  unfolding revert_beacon
  revert_beacon-ok name m e = rw (e, revert_beacon)

  snapshot_docker-ok :
      (codecs : Codecs) (name : Text) (m : TestManager H S) (docker : DockerMockManager)
      → DockerManager.take_snapshot codecs name m.docker ≡ ok docker
      → snapshot_docker codecs name m ≡ (ok tt, record m { docker = docker })
  unfolding snapshot_docker
  snapshot_docker-ok codecs name m docker e = rw (e, snapshot_docker)

  revert_docker-ok :
      (codecs : Codecs) (name : Text) (m : TestManager H S) (docker : DockerMockManager)
      → DockerManager.revert_to_snapshot codecs name m.docker ≡ ok docker
      → revert_docker codecs name m ≡ (ok tt, record m { docker = docker })
  unfolding revert_docker
  revert_docker-ok codecs name m docker e = rw (e, revert_docker)

  with_files-ok :
      (f : FilesystemManager → Disk → Filesystem.Done) (m : TestManager H S) (disk : Disk)
      → f m.fs_manager m.disk ≡ (ok tt, m.fs_manager, disk)
      → with_files f m ≡ (ok tt, record m { disk = disk })
  unfolding with_files keep_files
  with_files-ok f m disk e = rw e

module _ {H S : Type 0} (rpc : Hardhat H) (codecs : Codecs) (system : System) (name : Text) where
  -- The manager after the services are taken.
  abbrev pub services_taken :
      Text → H → DockerMockManager → Disk → TestManager H S → TestManager H S
  services_taken id h docker disk m =
      let (beacon, heap) = Manager.take_snapshot name m.beacon_mock_manager m.heap in
      record m {
        hardhat = h;
        hardhat_snapshot_map = insert name id m.hardhat_snapshot_map;
        beacon_mock_manager = beacon;
        heap = heap;
        docker = docker;
        disk = disk;
      }

  pub snapshot_services-ok :
      (id : Text) (h : H) (docker : DockerMockManager) (disk : Disk) (m : TestManager H S)
      → rpc.evm_snapshot m.hardhat ≡ some (id, h)
      → DockerManager.take_snapshot codecs name m.docker ≡ ok docker
      → Filesystem.take_snapshot system name m.fs_manager m.disk ≡ (ok tt, m.fs_manager, disk)
      → snapshot_services rpc codecs system name m ≡ (ok tt, services_taken id h docker disk m)
  unfolding snapshot_services snapshot_beacon proceed
  snapshot_services-ok id h docker disk m e f g =
      let m₁ = record m {
        hardhat = h;
        hardhat_snapshot_map = insert name id m.hardhat_snapshot_map;
      } in
      let m₂ = (snapshot_beacon name m₁).1 in
      rw (
        snapshot_hardhat-ok rpc name id h m e,
        snapshot_docker-ok codecs name m₂ docker f,
        with_files-ok (Filesystem.take_snapshot system name) (record m₂ { docker = docker }) disk g,
      )

  -- The manager after the services are reverted.
  abbrev pub services_reverted :
      Text → H → DockerMockManager → Disk → TestManager H S → TestManager H S
  services_reverted id h docker disk m =
      let (_, beacon, heap) = Manager.revert_to_snapshot name m.beacon_mock_manager m.heap in
      record m {
        hardhat = h;
        hardhat_snapshot_map = insert name id m.hardhat_snapshot_map;
        beacon_mock_manager = beacon;
        heap = heap;
        docker = docker;
        disk = disk;
      }

  pub revert_services-ok :
      (id id' : Text) (h h' : H) (docker : DockerMockManager) (disk : Disk) (m : TestManager H S)
      → lookup name m.hardhat_snapshot_map ≡ some id
      → rpc.evm_revert id m.hardhat ≡ some h
      → rpc.evm_snapshot h ≡ some (id', h')
      → (Manager.revert_to_snapshot name m.beacon_mock_manager m.heap).0 ≡ ok tt
      → DockerManager.revert_to_snapshot codecs name m.docker ≡ ok docker
      → Filesystem.revert_to_snapshot system name m.fs_manager m.disk ≡ (ok tt, m.fs_manager, disk)
      → revert_services rpc codecs system name m ≡ (ok tt, services_reverted id' h' docker disk m)
  unfolding revert_services proceed
  revert_services-ok id id' h h' docker disk m e f g b d k =
      let m₁ = record m { hardhat = h } in
      let m₂ = record m {
        hardhat = h';
        hardhat_snapshot_map = insert name id' m.hardhat_snapshot_map;
      } in
      let r = Manager.revert_to_snapshot name m.beacon_mock_manager m.heap in
      let m₃ = record m₂ { beacon_mock_manager = r.1; heap = r.2 } in
      rw (
        revert_hardhat-ok rpc name id h m e f,
        snapshot_hardhat-ok rpc name id' h' m₁ g,
        revert_beacon-ok name m₂ b,
        revert_docker-ok codecs name m₃ docker d,
        with_files-ok (Filesystem.revert_to_snapshot system name) (record m₃ { docker = docker })
            disk k,
      )
