-- ===== src/Filesystem/Examples.antt =====
-- A folder with a file and a directory, and the theorems about filesystem/manager.go at it.
use osha.Base.{
  ◌≡◌, ◌≢◌, refl, inl, true, false, [], ◌∷◌, some, Text, text_eq, text_beq, bytes, lookup, ok, fail,
}
use osha.Filesystem.{
  Node, file, dir, irregular, Entries, end, entry, System, Disk, FilesystemManager, folder_mode,
  find, find_snapshot, take_snapshot, revert_to_snapshot, snapshot_exists,
}
use osha.Filesystem.Regular.{HasIrregular}
use osha.Filesystem.Irregular.{take_snapshot-irregular}
use osha.Filesystem.Snapshots.{Permits, revert-take_folder}

abbrev pub system : System
system = record { dir_mode = λ mode. mode; makes = λ target path. true; removes = λ path. true }

pub system-Permits : Permits system
system-Permits = record { makes = λ target path. refl; removes = λ path. refl }

abbrev pub files : FilesystemManager
files = record { test_dir = bytes "/t"; snapshot_dir = bytes "/s" }

abbrev pub folder : Entries
folder = entry (bytes "a") (file 420 (bytes "text")) (entry (bytes "b") (dir 493 end) end)

abbrev pub disk_of : Entries → Disk
disk_of es = (bytes "/t", dir 448 es) ∷ (bytes "/s", dir 448 end) ∷ []

revert-take_folder_example :
    (taken : Disk) × (take_snapshot system (bytes "one") files (disk_of folder)
      ≡ (ok tt, files, taken))
    × ((path : Text)
        → text_beq files.snapshot_dir path ≡ false
        → lookup path taken ≡ lookup path (disk_of folder))
    × ((other : Text)
        → text_beq (bytes "one") other ≡ false
        → find_snapshot files other taken ≡ find_snapshot files other (disk_of folder))
    × ((later : Disk)
        → find_snapshot files (bytes "one") later ≡ find_snapshot files (bytes "one") taken
        → (reverted : Disk) × (revert_to_snapshot system (bytes "one") files later
            ≡ (ok tt, files, reverted))
          × (lookup files.test_dir reverted ≡ some (dir folder_mode folder))
          × ((path : Text)
              → text_beq files.test_dir path ≡ false
              → lookup path reverted ≡ lookup path later))
unfolding lookup find_snapshot find text_beq
revert-take_folder_example =
    revert-take_folder system system-Permits (bytes "one") files (disk_of folder) 448 448 folder end
      refl (refl, tt, (refl, tt, tt)) (tt, ((refl, tt), tt)) refl refl

-- A folder with a link in its directory.
abbrev linked : Entries
linked = entry (bytes "b") (dir 493 (entry (bytes "l") irregular end)) end

take_snapshot-irregular_example :
    let (result, _, taken) = take_snapshot system (bytes "one") files (disk_of linked) in
    (result ≢ ok tt)
    × ((left : Node) × (find_snapshot files (bytes "one") taken ≡ some left) × ¬ HasIrregular left)
    × (take_snapshot system (bytes "one") files taken
        ≡ (fail (snapshot_exists (bytes "one")), files, taken))
unfolding lookup find_snapshot find text_beq
take_snapshot-irregular_example =
    take_snapshot-irregular system (bytes "one") files (disk_of linked) 448 448 linked end
      system-Permits refl (inl (inl tt)) refl refl
