-- ===== src/Beacon/Database/Cloning.antt =====
-- `Clone` of beacon/db/database.go: the clone has the contents of the original in objects of its own.
use mathlib.Core.Option
use osha.Base.{
  ℕ, suc, ◌+◌, ◌≤◌, ◌<◌, ◌≡◌, refl, sym, ap, ◌∙◌, List, [], ◌∷◌, map, Option, none, some, lookup,
  lookup-insert, insert, Dict, lookup-empty, lookup-copy, length, All, All-map, arith, nat_eq,
}
use osha.Beacon.Validator.{Validator, clone}
use osha.Beacon.Heap.{Heap}
use osha.Beacon.Database.{Database, clone_validators, clone_database}
use osha.Beacon.Database.View.{view, find, IsValid, Indexed, Distinct, find-same, Distinct-same}
use osha.Beacon.Database.Allocation.{alloc-SameKeys, find_value, find-value}
use osha.Beacon.Database.CloneLoop.{
  Within, alloc-SameAllocated, clone_validators-Within, clone_validators-first,
  clone_validators-frame, deposit-clone_validators, map-clone_validators, next-clone_validators,
  round,
}

none_of_map : {A B : Type 0} (f : A → B) (o : Option A) → Option.map f o ≡ none → o ≡ none
none_of_map f none e = refl
none_of_map f (some a) e = cc

-- What is missing in a slice is missing in every slice with the same contents.
find-contents :
    (k : ℕ) (ps qs : List ℕ) (h h' : Heap)
    → map h'.validator qs ≡ map h.validator ps
    → find k ps h ≡ none
    → find k qs h' ≡ none
find-contents k ps qs h h' same e = none_of_map h'.validator (find k qs h') (
    find-value k qs h'
    ∙ ap (find_value k) same
    ∙ sym (find-value k ps h)
    ∙ ap (Option.map h.validator) e)

Indexed-contents :
    (i : ℕ) (ps qs : List ℕ) (h h' : Heap)
    → map h'.validator qs ≡ map h.validator ps
    → Indexed i ps h
    → Indexed i qs h'
Indexed-contents i [] [] h h' same ix = tt
Indexed-contents i (p ∷ ps) (q ∷ qs) h h' same ix =
    let head : h'.validator q ≡ h.validator p = cc in
    (ap (λ (v : Validator). v.index) head ∙ ix.0, Indexed-contents (suc i) ps qs h h' (cc) ix.1)
Indexed-contents i [] (q ∷ qs) h h' same ix = cc
Indexed-contents i (p ∷ ps) [] h h' same ix = tt

Distinct-contents :
    (ps qs : List ℕ) (h h' : Heap)
    → map h'.validator qs ≡ map h.validator ps
    → Distinct ps h
    → Distinct qs h'
Distinct-contents [] [] h h' same d = tt
Distinct-contents (p ∷ ps) (q ∷ qs) h h' same d =
    let head : h'.validator q ≡ h.validator p = cc in
    let tail : map h'.validator qs ≡ map h.validator ps = cc in
    (
      find-contents (h'.validator q).pubkey ps qs h h' tail
          (ap (λ (v : Validator). find v.pubkey ps h) head ∙ d.0),
      Distinct-contents ps qs h h' tail d.1,
    )
Distinct-contents [] (q ∷ qs) h h' same d = cc
Distinct-contents (p ∷ ps) [] h h' same d = tt

-- The first of two answers that is not nil.
abbrev first : Option ℕ → Option ℕ → Option ℕ
first (some q) r = some q
first none r = r

-- The map of the clone leads to the new objects.
lookup-clone_validators :
    (k : ℕ) (ps : List ℕ) (m : Dict ℕ ℕ) (h : Heap)
    → All (λ p. p < h.next) ps
    → Distinct ps h
    → lookup k (clone_validators ps m h).1
      ≡ first (find k (clone_validators ps m h).0 (clone_validators ps m h).2) (lookup k m)
unfolding clone_validators find
lookup-clone_validators k [] m h a d = refl
lookup-clone_validators k (p ∷ ps) m h a d =
    let v = h.validator p in
    let m' = insert v.pubkey h.next m in
    let b = alloc-SameAllocated (clone v) h ps a.1 in
    let same = alloc-SameKeys (clone v) h ps a.1 in
    let r = clone_validators ps m' (round p h) in
    ground (
      arith,
      ap (λ (w : Validator). w.pubkey) (clone_validators-first p ps m' h),
      lookup-clone_validators k ps m' (round p h) b (Distinct-same ps h (round p h) same d.1),
      lookup-insert v.pubkey k h.next m,
      find-contents v.pubkey ps r.0 (round p h) r.2 (map-clone_validators ps m' (round p h) b)
          (find-same v.pubkey ps h (round p h) same ∙ d.0),
    )

first-none : (o : Option ℕ) → first o none ≡ o
first-none none = refl
first-none (some q) = refl

-- The clone of a well-formed database is well formed.
pub clone_database-IsValid :
    (db : Database) (h : Heap)
    → IsValid db h
    → IsValid (clone_database db h).0 (clone_database db h).1
unfolding clone_database
clone_database-IsValid db h valid =
    let ps = db.validators in
    let r = clone_validators ps [] h in
    let same = map-clone_validators ps [] h valid.allocated in
    record {
      allocated = rw next-clone_validators (
          All-map {P = Within h.next (h.next + length ps)} (λ q w. w.1) r.0
            (clone_validators-Within ps [] h));
      indexed = Indexed-contents 0 ps r.0 h r.2 same valid.indexed;
      distinct = Distinct-contents ps r.0 h r.2 same valid.distinct;
      mapped = λ k.
          lookup-clone_validators k ps [] h valid.allocated valid.distinct
          ∙ rw (lookup-empty, first-none);
      synced = valid.synced;
    }

-- A clone shows what the original shows, but for the pending deposits: it has none.
pub view-clone_database :
    (db : Database) (h : Heap)
    → IsValid db h
    → view (clone_database db h).0 (clone_database db h).1 ≡ record (view db h) { deposits = [] }
unfolding clone_database
view-clone_database db h valid = λ i. record (view db h) {
  validators = map-clone_validators db.validators [] h valid.allocated i;
  deposits = [];
  blocks = λ slot. lookup-copy slot db.execution_block_map i;
}

-- The clone stands on new objects only, and no older object changes.
pub clone_database_fresh :
    (db : Database) (h : Heap)
    → All (Within h.next (clone_database db h).1.next) (clone_database db h).0.validators
unfolding clone_database
clone_database_fresh db h = rw next-clone_validators (clone_validators-Within db.validators [] h)

pub clone_database-frame :
    (db : Database) (h : Heap) (x : ℕ)
    → x < h.next
    → (clone_database db h).1.validator x ≡ h.validator x
unfolding clone_database
clone_database-frame db h x lt = clone_validators-frame db.validators [] h x lt

pub deposit-clone_database :
    (db : Database) (h : Heap) → (clone_database db h).1.deposit ≡ h.deposit
unfolding clone_database
deposit-clone_database db h = deposit-clone_validators db.validators [] h

pub next-clone_database : (db : Database) (h : Heap) → h.next ≤ (clone_database db h).1.next
unfolding clone_database
next-clone_database db h = omega (arith, next-clone_validators db.validators [] h)
