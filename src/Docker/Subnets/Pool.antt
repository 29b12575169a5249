-- ===== src/Docker/Subnets/Pool.antt =====
-- Maps whose keys are all different, and the numbers that they hold: what the pool of subnets of
-- docker/state.go comes down to.
use osha.Base.{
  ℕ, ◌+◌, ◌≤◌, ◌≡◌, inl, inr, refl, sym, ap, ◌∙◌, List, [], ◌∷◌, Option, none, some, Text, text_eq,
  Dict, lookup, insert, delete, lookup-insert, lookup-delete, lookup-empty, subst, false, count,
  arith, nat_beq, if◌then◌else◌, Bool-cases, text_beq, text_beq_iff,
}

-- The numbers of a map.
abbrev pub values : Dict Text ℕ → List ℕ
values [] = []
values ((k, v) ∷ m) = v ∷ values m

-- No key comes twice.
abbrev pub IsUnique : {V : Type 0} → Dict Text V → Type 0
IsUnique [] = Unit {0}
IsUnique ((k, v) ∷ m) = (lookup k m ≡ none) × IsUnique m

-- 1 if the map holds the number under the key.
abbrev pub held : ℕ → Option ℕ → ℕ
held i none = 0
held i (some v) = if nat_beq v i then 1 else 0

pub count-insert :
    (i v : ℕ) (k : Text) (m : Dict Text ℕ)
    → lookup k m ≡ none
    → count i (values (insert k v m)) ≡ count i (values m) + held i (some v)
unfolding insert lookup
count-insert i v k [] e = omega arith
count-insert i v k ((j, w) ∷ m) e = elim (Bool-cases (text_beq j k)) [
  | inl hit ↦ ground (arith, e)
  | inr miss ↦ rw (miss, insert) (omega (arith, count-insert i v k m (ground (arith, e))))
]

flip : (j k : Text) → text_beq j k ≡ false → text_beq k j ≡ false
flip j k miss = ground (arith, text_beq_iff k j, text_beq_iff j k, miss)

pub IsUnique-insert :
    {V : Type 0} (k : Text) (v : V) (m : Dict Text V) → IsUnique m → IsUnique (insert k v m)
unfolding insert
IsUnique-insert k v [] u = (lookup-empty k, tt)
IsUnique-insert k v ((j, w) ∷ m) u = elim (Bool-cases (text_beq j k)) [
  | inl hit ↦ rw (hit, insert) (subst (λ l. lookup l m ≡ none) ((text_beq_iff j k).0 hit) u.0, u.1)
  | inr miss ↦
      rw (miss, insert) (rw (lookup-insert k j v m, flip j k miss) u.0, IsUnique-insert k v m u.1)
]

pub IsUnique-delete : (k : Text) (m : Dict Text ℕ) → IsUnique m → IsUnique (delete k m)
unfolding delete
IsUnique-delete k [] u = tt
IsUnique-delete k ((j, w) ∷ m) u = elim (Bool-cases (text_beq j k)) [
  | inl hit ↦ rw (hit, delete) (IsUnique-delete k m u.1)
  | inr miss ↦
      rw (miss, delete) (rw (lookup-delete k j m, flip j k miss) u.0, IsUnique-delete k m u.1)
]

delete_absent : (k : Text) (m : Dict Text ℕ) → lookup k m ≡ none → delete k m ≡ m
unfolding delete lookup
delete_absent k [] e = refl
delete_absent k ((j, w) ∷ m) e = elim (Bool-cases (text_beq j k)) [
  | inl hit ↦ ground (arith, e)
  | inr miss ↦ rw (miss, delete) (ap (λ l. (j, w) ∷ l) (delete_absent k m (ground (arith, e))))
]

pub count-delete :
    (i : ℕ) (k : Text) (m : Dict Text ℕ)
    → IsUnique m
    → count i (values m) ≡ count i (values (delete k m)) + held i (lookup k m)
unfolding delete lookup
count-delete i k [] u = refl
count-delete i k ((j, w) ∷ m) u = elim (Bool-cases (text_beq j k)) [
  | inl hit ↦
      let gone : lookup k m ≡ none =
        subst (λ l. lookup l m ≡ none) ((text_beq_iff j k).0 hit) u.0 in
      rw (hit, delete, lookup, delete_absent k m gone) (omega arith)
  | inr miss ↦ rw (miss, delete, lookup) (omega (arith, count-delete i k m u.1))
]

pub count_of_lookup :
    (i : ℕ) (k : Text) (m : Dict Text ℕ) → lookup k m ≡ some i → 1 ≤ count i (values m)
unfolding lookup
count_of_lookup i k [] e = absurd (cc)
count_of_lookup i k ((j, w) ∷ m) e = elim (Bool-cases (text_beq j k)) [
  | inl hit ↦ ground (arith, e)
  | inr miss ↦ omega (arith, count_of_lookup i k m (ground (arith, e)))
]

-- A number that is held once has one key.
pub one_key :
    (i : ℕ) (a b : Text) (m : Dict Text ℕ)
    → count i (values m) ≤ 1
    → lookup a m ≡ some i
    → lookup b m ≡ some i
    → a ≡ b
unfolding lookup
one_key i a b [] le e f = absurd (cc)
one_key i a b ((j, w) ∷ m) le e f = elim (Bool-cases (text_beq j a)) [
  | inl hit ↦ elim (Bool-cases (text_beq j b)) [
    | inl hit' ↦ sym ((text_beq_iff j a).0 hit) ∙ (text_beq_iff j b).0 hit'
    | inr miss' ↦ absurd (ground (arith, count_of_lookup i b m))
  ]
  | inr miss ↦ elim (Bool-cases (text_beq j b)) [
    | inl hit' ↦ absurd (ground (arith, count_of_lookup i a m))
    | inr miss' ↦ one_key i a b m (omega arith) (ground (arith, e)) (ground (arith, f))
  ]
]
