-- ===== src/Filesystem/Irregular.antt =====
-- Irregular files, which filesystem/manager.go does not copy.
use osha.Base.{
  ℕ, ◌≡◌, ◌≢◌, refl, ◌∙◌, inl, inr, List, [], ◌∷◌, ◌++◌, none, some, Text, text_eq, lookup, insert,
  ==-refl, ok, fail, panic, Outcome,
}
use osha.Filesystem.{
  Node, file, dir, irregular, Entries, end, entry, put, System, Disk, FilesystemManager, FileError,
  snapshot_exists, folder_mode, make_dir, dir_made, walk_on, copy_node, copy_entries,
  copy_directory, find_snapshot, take_snapshot,
}
use osha.Filesystem.Regular.{HasIrregular, HaveIrregular, entries-without}
use osha.Filesystem.Snapshots.{Permits, find_snapshot-put}

abbrev IsBroken : Outcome FileError (Unit {0}) × Entries → Type 0
IsBroken r = r.0 ≢ ok tt

IsBroken-first :
    (r : Outcome FileError (Unit {0}) × Entries)
    (f : Entries → Outcome FileError (Unit {0}) × Entries)
    → IsBroken r
    → IsBroken (walk_on r f)
unfolding walk_on
IsBroken-first (ok u, es) f b e = b refl
IsBroken-first (fail x, es) f b e = cc
IsBroken-first (panic, es) f b e = cc

IsBroken-then :
    (r : Outcome FileError (Unit {0}) × Entries)
    (f : Entries → Outcome FileError (Unit {0}) × Entries)
    → ((es : Entries) → IsBroken (f es))
    → IsBroken (walk_on r f)
unfolding walk_on
IsBroken-then (ok u, es) f b e = b es e
IsBroken-then (fail x, es) f b e = cc
IsBroken-then (panic, es) f b e = cc

IsBroken-below :
    (name : Text) (es : Entries) (copy : Entries → Outcome FileError (Unit {0}) × Entries)
    (r : Outcome FileError (ℕ × Entries))
    → ((out : Entries) → IsBroken (copy out))
    → IsBroken (dir_made name es copy r)
unfolding dir_made
IsBroken-below name es copy (ok (mode, below)) b e = b below e
IsBroken-below name es copy (fail x) b e = cc
IsBroken-below name es copy panic b e = cc

module _ (system : System) where
  mutual
    unfolding copy_node

    node-IsBroken :
        (target : Text) (path : List Text) (name : Text) (node : Node) (out : Entries)
        → HasIrregular node
        → IsBroken (copy_node system target path name node out)
    node-IsBroken target path name (file mode content) out h = absurd h
    node-IsBroken target path name irregular out h = λ e. cc
    node-IsBroken target path name (dir mode es) out h =
        IsBroken-below name out (copy_entries system target (path ++ name ∷ []) es) _
          (λ below. entries-IsBroken target (path ++ name ∷ []) es below h)

    entries-IsBroken :
        (target : Text) (path : List Text) (es out : Entries)
        → HaveIrregular es
        → IsBroken (copy_entries system target path es out)
    entries-IsBroken target path end out h = absurd h
    entries-IsBroken target path (entry name node es) out (inl h) =
        IsBroken-first (copy_node system target path name node out)
          (copy_entries system target path es) (node-IsBroken target path name node out h)
    entries-IsBroken target path (entry name node es) out (inr h) =
        IsBroken-then (copy_node system target path name node out)
          (copy_entries system target path es) (λ below. entries-IsBroken target path es below h)

  attempt :
      (name : Text) (m : FilesystemManager) (disk : Disk) (mode mode' : ℕ) (es snapshots : Entries)
      → Permits system
      → lookup m.test_dir disk ≡ some (dir mode es)
      → lookup m.snapshot_dir disk ≡ some (dir mode' snapshots)
      → find_snapshot m name disk ≡ none
      → let copy = copy_entries system m.snapshot_dir (name ∷ []) es end in
        take_snapshot system name m disk ≡ (
          copy.0,
          m,
          insert m.snapshot_dir
              (dir mode' (put name (dir (system.dir_mode folder_mode) copy.1) snapshots))
              disk,
        )
  unfolding take_snapshot copy_directory make_dir
  attempt name m disk mode mode' es snapshots permits there folder free =
      rw (free, take_snapshot, folder, permits.makes m.snapshot_dir (name ∷ []), there)

  refused :
      (name : Text) (m : FilesystemManager) (disk : Disk) {left : Node}
      → find_snapshot m name disk ≡ some left
      → take_snapshot system name m disk ≡ (fail (snapshot_exists name), m, disk)
  unfolding take_snapshot
  refused name m disk e = rw (e, take_snapshot)

  -- A snapshot of a folder with an irregular file in it, at whatever depth, fails, but not before its
  -- own folder is made: the name has a snapshot then, but an incomplete one, without any irregular file,
  -- and a further snapshot of this name is refused.
  pub take_snapshot-irregular :
      (name : Text) (m : FilesystemManager) (disk : Disk) (mode mode' : ℕ) (es snapshots : Entries)
      → Permits system
      → lookup m.test_dir disk ≡ some (dir mode es)
      → HaveIrregular es
      → lookup m.snapshot_dir disk ≡ some (dir mode' snapshots)
      → find_snapshot m name disk ≡ none
      → let (result, _, taken) = take_snapshot system name m disk in
        (result ≢ ok tt)
        × ((left : Node) × (find_snapshot m name taken ≡ some left) × ¬ HasIrregular left)
        × (take_snapshot system name m taken ≡ (fail (snapshot_exists name), m, taken))
  take_snapshot-irregular name m disk mode mode' es snapshots permits there h folder free =
      let copy = copy_entries system m.snapshot_dir (name ∷ []) es end in
      let left = dir (system.dir_mode folder_mode) copy.1 in
      let found =
        find_snapshot-put system permits m name name left mode' snapshots disk folder
        ∙ rw (==-refl name) in
      rw (attempt name m disk mode mode' es snapshots permits there folder free) (
        entries-IsBroken m.snapshot_dir (name ∷ []) es end h,
        (left, found, entries-without system m.snapshot_dir (name ∷ []) es end (λ i. i)),
        refused name m _ found,
      )
