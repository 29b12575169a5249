-- ===== src/Filesystem/Snapshots.antt =====
-- The snapshots of filesystem/manager.go.
use osha.Base.{
  ℕ, ◌≡◌, refl, ◌∙◌, ap, ap₂, true, false, List, [], ◌∷◌, none, some, Text, text_eq, text_beq,
  text_beq_iff, lookup, insert, delete, lookup-insert, lookup-delete, ==-refl, ok, arith,
  if◌then◌else◌,
}
use osha.Filesystem.{
  Node, file, dir, irregular, Entries, end, entry, find, put, System, Disk, FilesystemManager,
  folder_mode, make_dir, copy_directory, find_snapshot, take_snapshot, refill, revert_to_snapshot,
}
use osha.Filesystem.Copying.{settle, settle_entries, ArePlain, copy_entries-plain, Apart-end}

-- The directories have modes that stay as they are where they are made again.
abbrev mutual
  pub KeepsMode : (ℕ → ℕ) → Node → Type 0
  KeepsMode f (file mode content) = Unit {0}
  KeepsMode f (dir mode es) = (f mode ≡ mode) × KeepModes f es
  KeepsMode f irregular = Unit {0}

  pub KeepModes : (ℕ → ℕ) → Entries → Type 0
  KeepModes f end = Unit {0}
  KeepModes f (entry name node es) = KeepsMode f node × KeepModes f es

mutual
  settle_kept : (f : ℕ → ℕ) (node : Node) → KeepsMode f node → settle f node ≡ node
  settle_kept f (file mode content) k = refl
  settle_kept f (dir mode es) k = ap₂ dir k.0 (settle_entries_kept f es k.1)
  settle_kept f irregular k = refl

  settle_entries_kept : (f : ℕ → ℕ) (es : Entries) → KeepModes f es → settle_entries f es ≡ es
  settle_entries_kept f end k = refl
  settle_entries_kept f (entry name node es) k =
      ap₂ (entry name) (settle_kept f node k.0) (settle_entries_kept f es k.1)

find-put :
    (name other : Text) (node : Node) (es : Entries)
    → find other (put name node es) ≡ (if text_beq name other then some node else find other es)
unfolding find put
find-put name other node end = refl
find-put name other node (entry key n es) = ground (
  arith,
  text_beq_iff name other,
  text_beq_iff key name,
  text_beq_iff key other,
  find-put name other node es,
)

-- A system that refuses nothing.
pub record Permits (system : System) : Type 0 where
  pub makes : (target : Text) (path : List Text) → system.makes target path ≡ true
  pub removes : (path : Text) → system.removes path ≡ true

module _ (system : System) (permits : Permits system) where
  copied :
      (target : Text) (path : List Text) (mode mode' : ℕ) (es : Entries)
      → ArePlain es
      → KeepModes system.dir_mode es
      → copy_directory system target path (some (dir mode es)) (some (dir mode' end))
        ≡ (ok tt, some (dir mode' es))
  unfolding copy_directory make_dir
  copied target path mode mode' es p k =
      rw (copy_entries-plain system target (permits.makes target) path es end p (Apart-end es))
        (ap (λ xs. (ok tt, some (dir mode' xs))) (settle_entries_kept system.dir_mode es k))

  -- What is at the path of a tree that has a snapshot more.
  pub find_snapshot-put :
      (m : FilesystemManager) (name other : Text) (node : Node) (mode : ℕ) (es : Entries)
      (disk : Disk)
      → lookup m.snapshot_dir disk ≡ some (dir mode es)
      → find_snapshot m other (insert m.snapshot_dir (dir mode (put name node es)) disk)
        ≡ (if text_beq name other then some node else find_snapshot m other disk)
  unfolding find_snapshot
  find_snapshot-put m name other node mode es disk e =
      let here = lookup-insert m.snapshot_dir m.snapshot_dir (dir mode (put name node es)) disk in
      rw (here, ==-refl m.snapshot_dir, find_snapshot)
        (rw (e, find_snapshot) (find-put name other node es))

  -- A snapshot of a folder whose tree has no irregular file, in a system that refuses nothing and keeps
  -- the modes of its directories, succeeds under a name that is free. It changes nothing but the
  -- snapshot of this name; and as long as this is kept, a return to it succeeds, whatever has become of
  -- the disk: the folder has the entries again that it had, and nothing else is changed.
  pub revert-take_folder :
      (name : Text) (m : FilesystemManager) (disk : Disk) (mode mode' : ℕ) (es snapshots : Entries)
      → lookup m.test_dir disk ≡ some (dir mode es)
      → ArePlain es
      → KeepModes system.dir_mode es
      → lookup m.snapshot_dir disk ≡ some (dir mode' snapshots)
      → find_snapshot m name disk ≡ none
      → (taken : Disk) × (take_snapshot system name m disk ≡ (ok tt, m, taken))
        × ((path : Text)
            → text_beq m.snapshot_dir path ≡ false
            → lookup path taken ≡ lookup path disk)
        × ((other : Text)
            → text_beq name other ≡ false
            → find_snapshot m other taken ≡ find_snapshot m other disk)
        × ((later : Disk)
            → find_snapshot m name later ≡ find_snapshot m name taken
            → (reverted : Disk) × (revert_to_snapshot system name m later ≡ (ok tt, m, reverted))
              × (lookup m.test_dir reverted ≡ some (dir (system.dir_mode folder_mode) es))
              × ((path : Text)
                  → text_beq m.test_dir path ≡ false
                  → lookup path reverted ≡ lookup path later))
  unfolding take_snapshot revert_to_snapshot
  revert-take_folder name m disk mode mode' es snapshots there plain keeps folder free =
      let made = dir (system.dir_mode folder_mode) es in
      let taken = insert m.snapshot_dir (dir mode' (put name made snapshots)) disk in
      (
        taken,
        rw (
          free,
          take_snapshot,
          folder,
          permits.makes m.snapshot_dir (name ∷ []),
          there,
          copied m.snapshot_dir (name ∷ []) mode (system.dir_mode folder_mode) es plain keeps,
        ),
        λ path other. lookup-insert m.snapshot_dir path _ disk ∙ rw other,
        λ other differs.
            find_snapshot-put m name other made mode' snapshots disk folder ∙ rw differs,
        λ later kept.
            let found : find_snapshot m name later ≡ some made =
              kept
              ∙ find_snapshot-put m name name made mode' snapshots disk folder
              ∙ rw (==-refl name) in
            (
              insert m.test_dir made (delete m.test_dir later),
              rw (
                found,
                revert_to_snapshot,
                permits.removes m.test_dir,
                permits.makes m.test_dir [],
                refill,
                copied m.test_dir [] (system.dir_mode folder_mode) (system.dir_mode folder_mode) es
                    plain keeps,
              ),
              lookup-insert m.test_dir m.test_dir made (delete m.test_dir later)
                  ∙ rw (==-refl m.test_dir),
              λ path other.
                  lookup-insert m.test_dir path made (delete m.test_dir later)
                  ∙ rw (other, lookup-delete m.test_dir path later, other),
            ),
      )
