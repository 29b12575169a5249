-- ===== src/Filesystem/Copying.antt =====
-- `copyDirectory` of filesystem/manager.go on a folder without irregular files: a copy of the tree.
use osha.Base.{
  ℕ, ◌≡◌, refl, ◌∙◌, ap, inl, inr, true, false, List, [], ◌∷◌, ◌++◌, none, Text, text_eq, text_beq,
  text_beq_iff, ok, arith, Bool-cases,
}
use osha.Filesystem.{
  Node, file, dir, irregular, Entries, end, entry, find, put, System, make_dir, make_file,
  file_made, dir_made, walk_on, copy_node, copy_entries,
}

-- The tree with the modes that its directories get where they are made.
abbrev mutual
  pub settle : (ℕ → ℕ) → Node → Node
  settle f (file mode content) = file mode content
  settle f (dir mode es) = dir (f mode) (settle_entries f es)
  settle f irregular = irregular

  pub settle_entries : (ℕ → ℕ) → Entries → Entries
  settle_entries f end = end
  settle_entries f (entry name node es) = entry name (settle f node) (settle_entries f es)

-- No irregular file, and no name twice in a directory.
abbrev mutual
  pub IsPlain : Node → Type 0
  IsPlain (file mode content) = Unit {0}
  IsPlain (dir mode es) = ArePlain es
  IsPlain irregular = ⊥

  pub ArePlain : Entries → Type 0
  ArePlain end = Unit {0}
  ArePlain (entry name node es) = (find name es ≡ none) × IsPlain node × ArePlain es

abbrev pub append : Entries → Entries → Entries
append end fs = fs
append (entry name node es) fs = entry name node (append es fs)

append_assoc : (es fs gs : Entries) → append (append es fs) gs ≡ append es (append fs gs)
append_assoc end fs gs = refl
append_assoc (entry name node es) fs gs = ap (entry name node) (append_assoc es fs gs)

append-end : (es : Entries) → append es end ≡ es
append-end end = refl
append-end (entry name node es) = ap (entry name node) (append-end es)

put-new :
    (name : Text) (node : Node) (es : Entries)
    → find name es ≡ none
    → put name node es ≡ append es (entry name node end)
unfolding put find
put-new name node end e = refl
put-new name node (entry other n es) e = elim (Bool-cases (text_beq other name)) [
  | inl hit ↦ absurd (ground (arith, e))
  | inr miss ↦ rw (miss, put) (ap (entry other n) (put-new name node es (ground (arith, e))))
]

find-append :
    (name other : Text) (node : Node) (es : Entries)
    → find name es ≡ none
    → text_beq other name ≡ false
    → find name (append es (entry other node end)) ≡ none
unfolding find
find-append name other node end e miss = rw miss
find-append name other node (entry key n es) e miss = elim (Bool-cases (text_beq key name)) [
  | inl hit ↦ absurd (ground (arith, e))
  | inr miss' ↦ rw miss' (find-append name other node es (ground (arith, e)) miss)
]

-- The names of the one are not in the other.
abbrev pub Apart : Entries → Entries → Type 0
Apart end out = Unit {0}
Apart (entry name node es) out = (find name out ≡ none) × Apart es out

Apart-append :
    (es out : Entries) (name : Text) (node : Node)
    → Apart es out
    → find name es ≡ none
    → Apart es (append out (entry name node end))
unfolding find
Apart-append end out name node a e = tt
Apart-append (entry other n es) out name node a e = elim (Bool-cases (text_beq other name)) [
  | inl hit ↦ absurd (ground (arith, e))
  | inr miss ↦ (
    find-append other name node out a.0
        (ground (arith, text_beq_iff other name, text_beq_iff name other, miss)),
    Apart-append es out name node a.1 (ground (arith, e)),
  )
]

pub Apart-end : (es : Entries) → Apart es end
unfolding find
Apart-end end = tt
Apart-end (entry name node es) = (refl, Apart-end es)

module _ (system : System) (target : Text)
    (makes : (path : List Text) → system.makes target path ≡ true) where
  new_file :
      (path : List Text) (mode : ℕ) (content : Text)
      → make_file system target path mode content none ≡ ok (file mode content)
  unfolding make_file
  new_file path mode content = rw (makes path)

  new_dir :
      (path : List Text) (mode : ℕ)
      → make_dir system target path mode none ≡ ok (system.dir_mode mode, end)
  unfolding make_dir
  new_dir path mode = rw (makes path)

  mutual
    unfolding copy_node file_made dir_made walk_on

    copy_node-plain :
        (path : List Text) (name : Text) (node : Node) (out : Entries)
        → IsPlain node
        → find name out ≡ none
        → copy_node system target path name node out
          ≡ (ok tt, append out (entry name (settle system.dir_mode node) end))
    copy_node-plain path name (file mode content) out p e =
        rw (e, new_file (path ++ name ∷ []) mode content, put-new name (file mode content) out e)
    copy_node-plain path name irregular out p e = absurd p
    copy_node-plain path name (dir mode es) out p e =
        let below = path ++ name ∷ [] in
        rw (e, new_dir below mode, copy_entries-plain below es end p (Apart-end es))
          (rw (put-new name _ out e))

    pub copy_entries-plain :
        (path : List Text) (es out : Entries)
        → ArePlain es
        → Apart es out
        → copy_entries system target path es out
          ≡ (ok tt, append out (settle_entries system.dir_mode es))
    copy_entries-plain path end out p a = rw (append-end out)
    copy_entries-plain path (entry name node es) out p a =
        rw (copy_node-plain path name node out p.1 a.0) (
          copy_entries-plain path es (append out (entry name (settle system.dir_mode node) end)) p.2
            (Apart-append es out name (settle system.dir_mode node) a.1 p.0)
          ∙ ap (λ o. (ok tt, o)) (append_assoc out _ _))
