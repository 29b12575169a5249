-- ===== src/Filesystem/Regular.antt =====
-- `copyDirectory` of filesystem/manager.go copies no irregular file.
use osha.Base.{
  ℕ, Bool, true, false, ◌≡◌, refl, sym, subst, ◌⊎◌, inl, inr, List, [], ◌∷◌, ◌++◌, Option, none,
  some, Text, text_beq, ok, fail, panic, Outcome, Bool-cases, arith, if◌then◌else◌,
}
use osha.Filesystem.{
  Node, file, dir, irregular, Entries, end, entry, find, put, System, FileError, not_copied,
  file_made, dir_made, walk_on, make_dir, make_file, copy_node, copy_entries,
}

-- Somewhere in the tree there is an irregular file.
abbrev mutual
  pub HasIrregular : Node → Type 0
  HasIrregular (file mode content) = ⊥
  HasIrregular (dir mode es) = HaveIrregular es
  HasIrregular irregular = Unit {0}

  pub HaveIrregular : Entries → Type 0
  HaveIrregular end = ⊥
  HaveIrregular (entry name node es) = HasIrregular node ⊎ HaveIrregular es

-- What is in a tree without irregular files, and what is put in it.
find-without :
    (name : Text) (es : Entries) {node : Node}
    → ¬ HaveIrregular es
    → find name es ≡ some node
    → ¬ HasIrregular node
unfolding find
find-without name end h e i = cc
find-without name (entry other n es) {node} h e i = elim (Bool-cases (text_beq other name)) [
  | inl hit ↦ let same : n ≡ node = ground (arith, e) in h (inl (subst HasIrregular (sym same) i))
  | inr miss ↦ find-without name es (λ j. h (inr j)) (ground (arith, e)) i
]

put-without :
    (name : Text) (node : Node) (es : Entries)
    → ¬ HasIrregular node
    → ¬ HaveIrregular es
    → ¬ HaveIrregular (put name node es)
unfolding put
put-without name node end g h = λ i. elim i [ inl j ↦ g j | inr j ↦ j ]
put-without name node (entry other n es) g h = elim (Bool-cases (text_beq other name)) [
  | inl hit ↦ rw (hit, put) (λ i. elim i [ inl j ↦ g j | inr j ↦ h (inr j) ])
  | inr miss ↦
      rw (miss, put)
        (λ i. elim i [ inl j ↦ h (inl j) | inr j ↦ put-without name node es g (λ k. h (inr k)) j ])
]

module _ (system : System) (target : Text) where
  made_or_not :
      (makes : Bool) (name : Text) (mode : ℕ) (content : Text) (e : FileError) (out : Entries)
      → ¬ HaveIrregular out
      → ¬ HaveIrregular (file_made name out (if makes then ok (file mode content) else fail e)).1
  unfolding file_made
  made_or_not true name mode content e out h = put-without name (file mode content) out (λ i. i) h
  made_or_not false name mode content e out h = h

  -- The copy of a file is no irregular one.
  file_made-without :
      (path : List Text) (name : Text) (mode : ℕ) (content : Text) (old : Option Node)
      (out : Entries)
      → ¬ HaveIrregular out
      → ¬ HaveIrregular (file_made name out (make_file system target path mode content old)).1
  unfolding file_made make_file
  file_made-without path name mode content none out h =
      made_or_not (system.makes target path) name mode content (not_copied path) out h
  file_made-without path name mode content (some (dir m es)) out h = h
  file_made-without path name mode content (some (file m t)) out h =
      made_or_not (system.makes target path) name mode content (not_copied path) out h
  file_made-without path name mode content (some irregular) out h =
      made_or_not (system.makes target path) name mode content (not_copied path) out h

  dir_made-without :
      (path : List Text) (name : Text) (mode : ℕ) (old : Option Node) (out : Entries)
      (copy : Entries → Outcome FileError (Unit {0}) × Entries)
      → ¬ HaveIrregular out
      → ((node : Node) → old ≡ some node → ¬ HasIrregular node)
      → ((below : Entries) → ¬ HaveIrregular below → ¬ HaveIrregular (copy below).1)
      → ¬ HaveIrregular (dir_made name out copy (make_dir system target path mode old)).1
  unfolding dir_made make_dir
  dir_made-without path name mode none out copy h g c =
      elim (Bool-cases (system.makes target path)) [
        | inl made ↦ rw made (put-without name _ out (c end (λ i. i)) h)
        | inr refused ↦ rw refused h
      ]
  dir_made-without path name mode (some (dir m es)) out copy h g c =
      put-without name _ out (c es (g (dir m es) refl)) h
  dir_made-without path name mode (some (file m t)) out copy h g c = h
  dir_made-without path name mode (some irregular) out copy h g c = h

  walk_on-without :
      (r : Outcome FileError (Unit {0}) × Entries)
      (f : Entries → Outcome FileError (Unit {0}) × Entries)
      → ¬ HaveIrregular r.1
      → ((out : Entries) → ¬ HaveIrregular out → ¬ HaveIrregular (f out).1)
      → ¬ HaveIrregular (walk_on r f).1
  unfolding walk_on
  walk_on-without (ok u, es) f h g = g es h
  walk_on-without (fail e, es) f h g = h
  walk_on-without (panic, es) f h g = h

  mutual
    unfolding copy_node

    node-without :
        (path : List Text) (name : Text) (node : Node) (out : Entries)
        → ¬ HaveIrregular out
        → ¬ HaveIrregular (copy_node system target path name node out).1
    node-without path name (file mode content) out h =
        file_made-without (path ++ name ∷ []) name mode content (find name out) out h
    node-without path name irregular out h = h
    node-without path name (dir mode es) out h =
        dir_made-without (path ++ name ∷ []) name mode (find name out) out
          (copy_entries system target (path ++ name ∷ []) es) h
          (λ node e. find-without name out h e)
          (λ below g. entries-without (path ++ name ∷ []) es below g)

    -- A copy puts no irregular file in the target, however it ends.
    pub entries-without :
        (path : List Text) (es out : Entries)
        → ¬ HaveIrregular out
        → ¬ HaveIrregular (copy_entries system target path es out).1
    entries-without path end out h = h
    entries-without path (entry name node es) out h =
        walk_on-without (copy_node system target path name node out)
          (copy_entries system target path es) (node-without path name node out h)
          (λ below g. entries-without path es below g)
