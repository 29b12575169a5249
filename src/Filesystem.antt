-- ===== src/Filesystem.antt =====
-- filesystem/manager.go: the folder of a test and its snapshots. What the code uses of packages os and
-- path/filepath is modelled on trees of files: `Disk` has the trees at the paths of the folders, and a
-- snapshot's name is one component of a path, as the identifiers of test-manager.go are. Where the
-- operating system may refuse an operation, an argument says whether it does; what it refuses, it does
-- not begin.
pub mod Directory
pub mod Copying
pub mod Snapshots
pub mod Regular
pub mod Irregular
pub mod Examples
use osha.Base.{
  ℕ, Bool, true, false, not, List, [], ◌∷◌, ◌++◌, Option, none, some, Text, text_eq, text_beq,
  bytes, Dict, lookup, insert, delete, Outcome, ok, fail, panic, if◌then◌else◌,
}
pub use Directory.{
  Node, file, dir, irregular, Entries, end, entry, Disk, FileError, no_temporary_folder,
  snapshot_exists, no_snapshot, not_removed, not_made, no_folder, not_copied, irregular_file,
  System,
}
unfoldable pub use Directory.{
  find, put, file_made, dir_made, walk_on, make_dir, make_file, copy_node, copy_entries,
  copy_directory,
}

-- The two paths, which `Close` empties.
pub record FilesystemManager : Type 0 where
  pub test_dir : Text
  pub snapshot_dir : Text

-- 0700, the mode of a temporary folder, and 0755
abbrev pub private_mode : ℕ
private_mode = 448

abbrev pub folder_mode : ℕ
folder_mode = 493

-- `os.MkdirTemp` twice; a path or a refusal of each is an argument.
unfoldable pub new_filesystem_manager :
    System → Option Text → Option Text → Disk → Outcome FileError FilesystemManager × Disk
new_filesystem_manager system none second disk = (fail (no_temporary_folder (bytes "test")), disk)
new_filesystem_manager system (some test_dir) none disk =
    (fail (no_temporary_folder (bytes "snapshot")), insert test_dir (dir private_mode end) disk)
new_filesystem_manager system (some test_dir) (some snapshot_dir) disk = (
  ok (record { test_dir = test_dir; snapshot_dir = snapshot_dir }),
  insert snapshot_dir (dir private_mode end) (insert test_dir (dir private_mode end) disk),
)

-- The manager, the disk and the result after a method.
abbrev pub Done : Type 0
Done = Outcome FileError (Unit {0}) × FilesystemManager × Disk

-- `if m.testDir != "" { os.RemoveAll(m.testDir) ... }`: whether the folder is gone.
remove_folder : System → Text → Disk → Outcome FileError Disk
remove_folder system path disk =
    if text_beq path []
    then ok disk
    else if system.removes path
    then ok (delete path disk)
    else fail (not_removed path)

unfoldable pub close : System → FilesystemManager → Disk → Done
unfolding remove_folder
close system m disk = elim (remove_folder system m.test_dir disk) [
  | fail e ↦ (fail e, m, disk)
  | panic ↦ (panic, m, disk)
  | ok disk' ↦
      let m' = record m { test_dir = [] } in
      elim (remove_folder system m.snapshot_dir disk') [
        | fail e ↦ (fail e, m', disk')
        | panic ↦ (panic, m', disk')
        | ok disk'' ↦ (ok tt, record m' { snapshot_dir = [] }, disk'')
      ]
]

-- The snapshot of a name. The code reads it as a file: a directory is there, but cannot be read.
unfoldable pub find_snapshot : FilesystemManager → Text → Disk → Option Node
unfolding find
find_snapshot m name disk = elim (lookup m.snapshot_dir disk) [
  | some (dir mode es) ↦ find name es
  | _ ↦ none
]

-- A tree with a snapshot of this name.
with_snapshot : Text → Option Node → Node → Node
unfolding put
with_snapshot name (some snapshot) (dir mode es) = dir mode (put name snapshot es)
with_snapshot name snapshot node = node

-- A snapshot that is made, and the copy of the test's folder in it.
copy_to_snapshot : System → FilesystemManager → Text → Node → Disk → Done
unfolding with_snapshot
copy_to_snapshot system m name folder disk =
    let made = dir (system.dir_mode folder_mode) end in
    let (result, copied) =
      copy_directory system m.snapshot_dir (name ∷ []) (lookup m.test_dir disk) (some made) in
    (result, m, insert m.snapshot_dir (with_snapshot name copied folder) disk)

unfoldable pub take_snapshot : System → Text → FilesystemManager → Disk → Done
unfolding copy_to_snapshot
take_snapshot system name m disk = elim (find_snapshot m name disk) [
  | some _ ↦ (fail (snapshot_exists name), m, disk)
  | none ↦ elim (lookup m.snapshot_dir disk) [
    | some (dir mode es) ↦
        if system.makes m.snapshot_dir (name ∷ [])
        then copy_to_snapshot system m name (dir mode es) disk
        else (fail (not_made name), m, disk)
    | _ ↦ (fail (not_made name), m, disk)
  ]
]

-- The disk with the folder of the test made again.
with_folder : FilesystemManager → Disk → Outcome FileError (Unit {0}) × Option Node → Done
with_folder m disk (result, some node) =
    (result, m, insert m.test_dir node (delete m.test_dir disk))
with_folder m disk (result, none) = (result, m, delete m.test_dir disk)

-- The folder of the test, removed and made again, and the copy of the snapshot in it.
refill : System → FilesystemManager → Text → Node → Disk → Done
unfolding with_folder
refill system m name snapshot disk =
    let made = dir (system.dir_mode folder_mode) end in
    with_folder m disk (copy_directory system m.test_dir [] (some snapshot) (some made))

unfoldable pub revert_to_snapshot : System → Text → FilesystemManager → Disk → Done
unfolding refill
revert_to_snapshot system name m disk = elim (find_snapshot m name disk) [
  | none ↦ (fail (no_snapshot name), m, disk)
  | some snapshot ↦
      if system.removes m.test_dir
      then if system.makes m.test_dir []
        then refill system m name snapshot disk
        else (fail (not_made m.test_dir), m, delete m.test_dir disk)
      else (fail (not_removed m.test_dir), m, disk)
]
