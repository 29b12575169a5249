-- ===== src/TestManager/Snapshots/Returning.antt =====
-- CreateSnapshot and RevertSnapshot of test-manager.go over all services and modules.
use osha.Base.{
  refl, ℕ, ◌≡◌, ◌≢◌, sym, ◌∙◌, subst, List, [], Option, none, some, Text, text_eq, nat_eq, Dict,
  lookup, insert, lookup-insert, ==-refl, ok, All,
}
use osha.Beacon.External.{Packages}
use osha.Beacon.Database.View.{view}
use osha.Beacon.Manager
use osha.Beacon.Server.{Json, Node}
use osha.Beacon.Session.{Event, happen, happen_all}
use osha.Beacon.Session as Session
use osha.Beacon.Session.Isolation.{revert-take_snapshot}
use osha.Beacon.Session.Validity.{IsValidNode}
use osha.Docker.{Codecs}
use osha.Docker.Cloning.{IsExportable, observe, revert_to_snapshot-take_snapshot}
use osha.Docker.Manager as DockerManager
use osha.Docker.Manager.{DockerMockManager}
use osha.Filesystem
use osha.Filesystem.{System, Disk, Entries, dir, folder_mode, find_snapshot}
use osha.Filesystem.Copying.{ArePlain}
use osha.Filesystem.Snapshots.{Permits, KeepModes, revert-take_folder}
use osha.TestManager.{Hardhat, Snapshot, TestManager}
use osha.TestManager.Snapshots.{
  Modules, snapshot_services, revert_services, new_name, proceed, snapshot_modules, revert_modules,
  create_snapshot, revert_snapshot,
}
use osha.TestManager.Snapshots.Services.{
  services_taken, services_reverted, Keeping, Quiet, node, modules_taken, modules_reverted,
  snapshot_services-ok, revert_services-ok,
}

-- The services can be taken under a name that is new to the files: the Beacon mock is well formed, the
-- objects of the Docker mock can be exported, and the folder, which has these entries, has no irregular
-- file and modes that new directories keep.
pub record IsReady {H S : Type 0} (codecs : Codecs) (system : System) (name : Text) (es : Entries)
    (m : TestManager H S) : Type 0 where
  pub valid : IsValidNode (node m)
  pub exportable : IsExportable codecs m.docker.state
  pub mode : ℕ
  pub folder : lookup m.fs_manager.test_dir m.disk ≡ some (dir mode es)
  pub plain : ArePlain es
  pub modes : KeepModes system.dir_mode es
  pub snapshot_mode : ℕ
  pub snapshots : Entries
  pub snapshot_folder : lookup m.fs_manager.snapshot_dir m.disk ≡ some (dir snapshot_mode snapshots)
  pub free : find_snapshot m.fs_manager name m.disk ≡ none

-- What has become of a manager that kept a snapshot: of the Beacon mock, any events but a further
-- snapshot under this name; of the others, anything that keeps the snapshot of this name.
pub record HasKept {H S C : Type 0} (core : Packages) (json : Json) (held : Text → H → Option C)
    (name : Text) (taken later : TestManager H S) : Type 0 where
  pub snapshot : lookup name later.snapshots ≡ lookup name taken.snapshots
  pub hardhat_name : lookup name later.hardhat_snapshot_map ≡ lookup name taken.hardhat_snapshot_map
  pub hardhat :
      (id : Text)
      → lookup name taken.hardhat_snapshot_map ≡ some id
      → held id later.hardhat ≡ held id taken.hardhat
  pub events : List Event
  pub others : All (λ e. e ≢ Session.take_snapshot name) events
  pub beacon : node later ≡ happen_all core json events (node taken)
  pub docker : lookup name later.docker.snapshots ≡ lookup name taken.docker.snapshots
  pub files : later.fs_manager ≡ taken.fs_manager
  pub folder :
      find_snapshot taken.fs_manager name later.disk
      ≡ find_snapshot taken.fs_manager name taken.disk

module _ {H S : Type 0} (rpc : Hardhat H) (modules : Modules H S) (codecs : Codecs)
    (system : System) where
  create_snapshot-ok :
      (candidates : List Text) (name : Text) (m m₁ : TestManager H S) (states : Dict ℕ S) (h : H)
      → new_name candidates m.snapshots ≡ some name
      → snapshot_services rpc codecs system name m ≡ (ok tt, m₁)
      → snapshot_modules modules m₁.registered_modules [] m₁
        ≡ (ok states, record m₁ { hardhat = h })
      → create_snapshot rpc modules codecs system candidates m ≡ (
        ok name,
        record m₁ {
          hardhat = h;
          snapshots = insert name (record { name = name; states = states }) m₁.snapshots;
        },
      )
  unfolding create_snapshot proceed
  create_snapshot-ok candidates name m m₁ states h new e f = rw (new, create_snapshot, e, f)

  revert_snapshot-ok :
      (name : Text) (m m₁ : TestManager H S) (snapshot : Snapshot S) (h : H)
      → lookup name m.snapshots ≡ some snapshot
      → revert_services rpc codecs system name m ≡ (ok tt, m₁)
      → revert_modules modules m₁.registered_modules snapshot.states m₁
        ≡ (ok tt, record m₁ { hardhat = h })
      → revert_snapshot rpc modules codecs system name m ≡ (ok tt, record m₁ { hardhat = h })
  unfolding revert_snapshot proceed
  revert_snapshot-ok name m m₁ snapshot h found e f = rw (found, revert_snapshot, e, f)

module _ {H S C : Type 0} (rpc : Hardhat H) (modules : Modules H S) (codecs : Codecs)
    (system : System) (core : Packages) (json : Json) (chain : H → C) (held : Text → H → Option C)
    (keeping : Keeping rpc chain held) (quiet : Quiet modules chain held)
    (permits : Permits system) where
  reverted_ok :
      (name id : Text) (m : TestManager H S) (snapshot : Snapshot S) (h : H)
      (docker : DockerMockManager) (disk : Disk)
      → lookup name m.snapshots ≡ some snapshot
      → lookup name m.hardhat_snapshot_map ≡ some id
      → rpc.evm_revert id m.hardhat ≡ some h
      → (Manager.revert_to_snapshot name m.beacon_mock_manager m.heap).0 ≡ ok tt
      → DockerManager.revert_to_snapshot codecs name m.docker ≡ ok docker
      → Filesystem.revert_to_snapshot system name m.fs_manager m.disk ≡ (ok tt, m.fs_manager, disk)
      → (id' : Text) × (last : H) × (revert_snapshot rpc modules codecs system name m
          ≡ (ok tt, services_reverted rpc codecs system name id' last docker disk m))
        × (chain last ≡ chain h)
  reverted_ok name id m snapshot h docker disk found named reverting b d f =
      let (id', h', taking, same, _) = keeping.snapshots h in
      let m₁ = services_reverted rpc codecs system name id' h' docker disk m in
      let (last, modules_back, same') =
        modules_reverted rpc modules chain held quiet m.registered_modules snapshot.states m₁ in
      (
        id',
        last,
        revert_snapshot-ok rpc modules codecs system name m m₁ snapshot last found
            (revert_services-ok rpc codecs system name id id' h h' docker disk m named reverting
              taking b d f)
            modules_back,
        same' ∙ same,
      )

  -- A return to the snapshot of the name, from whatever has become of a manager that kept it.
  abbrev Returns : Text → Entries → TestManager H S → TestManager H S → Type 0
  Returns name es m taken =
      (later : TestManager H S)
      → HasKept core json held name taken later
      → (r : TestManager H S) × (revert_snapshot rpc modules codecs system name later ≡ (ok tt, r))
        × (chain r.hardhat ≡ chain m.hardhat)
        × (view r.beacon_mock_manager.database r.heap
            ≡ record (view m.beacon_mock_manager.database m.heap) { deposits = [] })
        × (observe r.docker.state ≡ record (observe m.docker.state) { service_hashes = λ n. none })
        × (lookup m.fs_manager.test_dir r.disk ≡ some (dir (system.dir_mode folder_mode) es))

  -- The snapshot leaves the configuration of the Beacon mock alone.
  pub taken_and_back :
      (candidates : List Text) (name : Text) (es : Entries) (m : TestManager H S)
      → new_name candidates m.snapshots ≡ some name
      → IsReady codecs system name es m
      → (taken : TestManager H S) × (create_snapshot rpc modules codecs system candidates m
          ≡ (ok name, taken))
        × (taken.beacon_mock_manager.config ≡ m.beacon_mock_manager.config)
        × Returns name es m taken
  unfolding happen Manager.take_snapshot
  taken_and_back candidates name es m new ready =
      let (id, h, taking, same, holding) = keeping.snapshots m.hardhat in
      let (docker, docker_taken, docker_back) =
        revert_to_snapshot-take_snapshot codecs name m.docker ready.exportable in
      let (disk, disk_taken, _, _, files_back) =
        revert-take_folder system permits name m.fs_manager m.disk ready.mode ready.snapshot_mode es
          ready.snapshots ready.folder ready.plain ready.modes ready.snapshot_folder ready.free in
      let m₁ = services_taken rpc codecs system name id h docker disk m in
      let (states, h', modules_ok, same', holding') =
        modules_taken rpc modules chain held quiet m.registered_modules [] m₁ in
      let snapshot : Snapshot S = record { name = name; states = states } in
      (
        record m₁ { hardhat = h'; snapshots = insert name snapshot m.snapshots },
        create_snapshot-ok rpc modules codecs system candidates name m m₁ states h' new
            (snapshot_services-ok rpc codecs system name id h docker disk m taking docker_taken
              disk_taken)
            modules_ok,
        refl,
        λ later kept.
            let named : lookup name later.hardhat_snapshot_map ≡ some id =
              kept.hardhat_name
              ∙ lookup-insert name name id m.hardhat_snapshot_map
              ∙ rw (==-refl name) in
            let found : lookup name later.snapshots ≡ some snapshot =
              kept.snapshot ∙ lookup-insert name name snapshot m.snapshots ∙ rw (==-refl name) in
            let (g, reverting, chain_back) = keeping.reverts id later.hardhat (chain m.hardhat) (
              kept.hardhat id
                (lookup-insert name name id m.hardhat_snapshot_map ∙ rw (==-refl name))
              ∙ holding' id
              ∙ holding) in
            let (docker', docker_reverted, docker_shown, _) =
              docker_back later.docker kept.docker in
            let (disk', disk_reverted, folder, _) = files_back later.disk kept.folder in
            let shows : Node → Type 0 = λ n.
              let r = Manager.revert_to_snapshot name n.manager n.heap in
              (r.0 ≡ ok tt)
              × (view r.1.database r.2
                  ≡ record (view m.beacon_mock_manager.database m.heap) { deposits = [] }) in
            let (beacon_ok, beacon_shown) =
              subst shows (sym kept.beacon) (
                revert-take_snapshot core json name kept.events (node m) ready.valid kept.others) in
            let (id', last, reverted, back) =
              reverted_ok name id later snapshot g docker' disk' found named reverting beacon_ok
                docker_reverted
                (subst
                  (λ f. Filesystem.revert_to_snapshot system name f later.disk ≡ (ok tt, f, disk'))
                  (sym kept.files) disk_reverted) in
            (
              services_reverted rpc codecs system name id' last docker' disk' later,
              reverted,
              back ∙ chain_back,
              beacon_shown,
              docker_shown,
              folder,
            ),
      )

  -- Where Hardhat keeps its snapshots as it documents, the modules succeed and leave the chain alone
  -- and the system refuses no file operation, a snapshot of services that are ready succeeds under
  -- the first new name. As long as it is kept, a return to it succeeds, whatever else happened to the
  -- services: the chain is the one it was, the Beacon mock shows what it showed but for the pending
  -- deposits, of which there are none, the Docker mock has what it had but for the hashes of the
  -- services, of which there are none, and the folder has the entries that it had.
  pub revert_snapshot-create_snapshot :
      (candidates : List Text) (name : Text) (es : Entries) (m : TestManager H S)
      → new_name candidates m.snapshots ≡ some name
      → IsReady codecs system name es m
      → (taken : TestManager H S) × (create_snapshot rpc modules codecs system candidates m
          ≡ (ok name, taken))
        × ((later : TestManager H S)
            → HasKept core json held name taken later
            → (r : TestManager H S) × (revert_snapshot rpc modules codecs system name later
                ≡ (ok tt, r))
              × (chain r.hardhat ≡ chain m.hardhat)
              × (view r.beacon_mock_manager.database r.heap
                  ≡ record (view m.beacon_mock_manager.database m.heap) { deposits = [] })
              × (observe r.docker.state
                  ≡ record (observe m.docker.state) { service_hashes = λ n. none })
              × (lookup m.fs_manager.test_dir r.disk ≡ some (dir (system.dir_mode folder_mode) es)))
  revert_snapshot-create_snapshot candidates name es m new ready =
      let (taken, created, _, back) = taken_and_back candidates name es m new ready in
      (taken, created, back)
