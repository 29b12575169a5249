-- ===== src/Filesystem/Directory.antt =====
-- `copyDirectory` of filesystem/manager.go, on trees of files.
use osha.Base.{
  ℕ, Bool, List, [], ◌∷◌, ◌++◌, Option, none, some, Text, text_beq, Dict, Outcome, ok, fail, panic,
  if◌then◌else◌,
}

-- A file has its mode; a directory lists its entries in the order of their names, as `Walk` does. An
-- irregular file is a link, a device, a socket or a pipe.
mutual
  pub data Node : Type 0 where
    file : ℕ → Text → Node
    dir : ℕ → Entries → Node
    irregular : Node

  pub data Entries : Type 0 where
    end : Entries
    entry : Text → Node → Entries → Entries

unfoldable pub find : Text → Entries → Option Node
find name end = none
find name (entry other n es) = if text_beq other name then some n else find name es

-- A new entry, or another node under a name that is there.
unfoldable pub put : Text → Node → Entries → Entries
put name node end = entry name node end
put name node (entry other n es) =
    if text_beq other name then entry other node es else entry other n (put name node es)

abbrev pub Disk : Type 0
Disk = Dict Text Node

pub data FileError : Type 0 where
  no_temporary_folder snapshot_exists no_snapshot not_removed not_made no_folder : Text → FileError
  not_copied irregular_file : List Text → FileError

-- The operating system: the mode that a new directory gets, and whether a path may be made (an entry
-- of a tree, named by the tree's path and the components in it) and a tree may be removed.
pub record System : Type 0 where
  pub dir_mode : ℕ → ℕ
  pub makes : Text → List Text → Bool
  pub removes : Text → Bool

-- The directory with the new file, if it was made.
unfoldable pub file_made :
    Text → Entries → Outcome FileError Node → Outcome FileError (Unit {0}) × Entries
file_made name es (ok node) = (ok tt, put name node es)
file_made name es (fail e) = (fail e, es)
file_made name es panic = (panic, es)

-- The directory with the new one, if it was made, and what the walk below it copies.
unfoldable pub dir_made :
    Text
    → Entries
    → (Entries → Outcome FileError (Unit {0}) × Entries)
    → Outcome FileError (ℕ × Entries)
    → Outcome FileError (Unit {0}) × Entries
dir_made name es copy (ok (mode, below)) =
    let (result, copied) = copy below in (result, put name (dir mode copied) es)
dir_made name es copy (fail e) = (fail e, es)
dir_made name es copy panic = (panic, es)

-- `Walk` goes on until there is an error.
unfoldable pub walk_on :
    Outcome FileError (Unit {0}) × Entries
    → (Entries → Outcome FileError (Unit {0}) × Entries)
    → Outcome FileError (Unit {0}) × Entries
walk_on (ok _, es) f = f es
walk_on (fail e, es) f = (fail e, es)
walk_on (panic, es) f = (panic, es)

module _ (system : System) (target : Text) where
  -- `copyDirectory` behind the root. The path under the target is the path under the source, so that
  -- the walk goes down both at once: `es` is what the directory of the target has so far.
  -- `os.MkdirAll`
  unfoldable pub make_dir : List Text → ℕ → Option Node → Outcome FileError (ℕ × Entries)
  make_dir path mode none =
      if system.makes target path then ok (system.dir_mode mode, end) else fail (not_copied path)
  make_dir path mode (some (dir mode' es)) = ok (mode', es)
  make_dir path mode (some (file mode' content)) = fail (not_copied path)
  make_dir path mode (some irregular) = fail (not_copied path)

  -- `os.Create`, with the mode and the content that follow. A link at this place is not modelled.
  unfoldable pub make_file : List Text → ℕ → Text → Option Node → Outcome FileError Node
  make_file path mode content (some (dir mode' es)) = fail (not_copied path)
  make_file path mode content old =
      if system.makes target path then ok (file mode content) else fail (not_copied path)

  unfoldable mutual
    -- The walker at one path, with the walk below it: the target's directory, with an error if the
    -- walk is broken off.
    pub copy_node : List Text → Text → Node → Entries → Outcome FileError (Unit {0}) × Entries
    copy_node path name (file mode content) es =
        file_made name es (make_file (path ++ name ∷ []) mode content (find name es))
    copy_node path name irregular es = (fail (irregular_file (path ++ name ∷ [])), es)
    copy_node path name (dir mode children) es =
        dir_made name es (copy_entries (path ++ name ∷ []) children)
          (make_dir (path ++ name ∷ []) mode (find name es))

    pub copy_entries : List Text → Entries → Entries → Outcome FileError (Unit {0}) × Entries
    copy_entries path end es = (ok tt, es)
    copy_entries path (entry name node rest) es =
        walk_on (copy_node path name node es) (copy_entries path rest)

  -- `copyDirectory`: the target's tree at the end. What is at `path` in it is the target.
  unfoldable pub copy_directory :
      List Text → Option Node → Option Node → Outcome FileError (Unit {0}) × Option Node
  unfolding copy_entries
  copy_directory path none there = (fail (no_folder target), there)
  copy_directory path (some irregular) there = (fail (irregular_file path), there)
  copy_directory path (some (file mode content)) there = elim (make_file path mode content there) [
    | ok node ↦ (ok tt, some node)
    | fail e ↦ (fail e, there)
    | panic ↦ (panic, there)
  ]
  copy_directory path (some (dir mode children)) there = elim (make_dir path mode there) [
    | ok (mode', es) ↦
        let (result, copied) = copy_entries path children es in (result, some (dir mode' copied))
    | fail e ↦ (fail e, there)
    | panic ↦ (panic, there)
  ]
