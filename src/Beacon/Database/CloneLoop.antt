-- ===== src/Beacon/Database/CloneLoop.antt =====
-- The loop over the validators in `Clone` of beacon/db/database.go.
use osha.Base.{
  ℕ, suc, ◌+◌, ◌≤◌, ◌<◌, ◌≡◌, refl, ap₂, ◌∙◌, List, [], ◌∷◌, map, insert, Dict, length, All,
  All-map, map-agree, arith, nat_eq,
}
use osha.Beacon.Validator.{Validator, clone}
use osha.Beacon.Heap.{Heap, alloc}
use osha.Beacon.Database.{clone_validators}
use osha.Beacon.Database.Allocation.{alloc-validator, alloc_self, next-alloc}

clone-eq : (v : Validator) → clone v ≡ v
unfolding clone
clone-eq v = refl

-- One round of the loop allocates this object and goes on from this heap.
abbrev pub round : ℕ → Heap → Heap
round p h = alloc (clone (h.validator p)) h

-- Objects from `lo` up to `hi`.
abbrev pub Within : ℕ → ℕ → ℕ → Type 0
Within lo hi p = (lo ≤ p) × (p < hi)

pub next-clone_validators :
    (ps : List ℕ) (m : Dict ℕ ℕ) (h : Heap) → (clone_validators ps m h).2.next ≡ h.next + length ps
unfolding clone_validators
next-clone_validators [] m h = omega arith
next-clone_validators (p ∷ ps) m h = omega (
  arith,
  next-clone_validators ps (insert (h.validator p).pubkey h.next m) (round p h),
  next-alloc (clone (h.validator p)) h,
)

-- The loop leaves the older objects alone.
pub clone_validators-frame :
    (ps : List ℕ) (m : Dict ℕ ℕ) (h : Heap) (x : ℕ)
    → x < h.next
    → (clone_validators ps m h).2.validator x ≡ h.validator x
unfolding clone_validators alloc
clone_validators-frame [] m h x lt = refl
clone_validators-frame (p ∷ ps) m h x lt =
    clone_validators-frame ps (insert (h.validator p).pubkey h.next m) (round p h) x (omega arith)
    ∙ ground arith

pub deposit-clone_validators :
    (ps : List ℕ) (m : Dict ℕ ℕ) (h : Heap) → (clone_validators ps m h).2.deposit ≡ h.deposit
unfolding clone_validators alloc
deposit-clone_validators [] m h = refl
deposit-clone_validators (p ∷ ps) m h = deposit-clone_validators ps _ (round p h)

pub clone_validators-Within :
    (ps : List ℕ) (m : Dict ℕ ℕ) (h : Heap)
    → All (Within h.next (h.next + length ps)) (clone_validators ps m h).0
unfolding clone_validators alloc
clone_validators-Within [] m h = tt
clone_validators-Within (p ∷ ps) m h = (
  (omega arith, omega arith),
  All-map {P = Within (suc h.next) (suc h.next + length ps)} (λ q w. (omega arith, omega arith)) _
      (clone_validators-Within ps (insert (h.validator p).pubkey h.next m) (round p h)),
)

pub alloc-SameAllocated :
    (v : Validator) (h : Heap) (ps : List ℕ)
    → All (λ p. p < h.next) ps
    → All (λ p. p < (alloc v h).next) ps
unfolding alloc
alloc-SameAllocated v h ps a = All-map {P = λ p. p < h.next} (λ p lt. omega arith) ps a

-- The object of the round holds what the old one held, to the end of the loop.
pub clone_validators-first :
    (p : ℕ) (ps : List ℕ) (m : Dict ℕ ℕ) (h : Heap)
    → (clone_validators ps m (round p h)).2.validator h.next ≡ h.validator p
clone_validators-first p ps m h =
    clone_validators-frame ps m (round p h) h.next
      (omega (arith, next-alloc (clone (h.validator p)) h))
    ∙ alloc_self (clone (h.validator p)) h
    ∙ clone-eq (h.validator p)

-- The new objects hold what the old ones held.
pub map-clone_validators :
    (ps : List ℕ) (m : Dict ℕ ℕ) (h : Heap)
    → All (λ p. p < h.next) ps
    → map (clone_validators ps m h).2.validator (clone_validators ps m h).0 ≡ map h.validator ps
unfolding clone_validators
map-clone_validators [] m h a = refl
map-clone_validators (p ∷ ps) m h a =
    let v = h.validator p in
    let m' = insert v.pubkey h.next m in
    ap₂ ◌∷◌ (clone_validators-first p ps m' h) (
      map-clone_validators ps m' (round p h) (alloc-SameAllocated (clone v) h ps a.1)
      ∙ map-agree (round p h).validator h.validator ps (alloc-validator (clone v) h ps a.1))
