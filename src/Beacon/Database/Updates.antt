-- ===== src/Beacon/Database/Updates.antt =====
-- Changes to a validator through its pointer, seen from a database.
use osha.Base.{ℕ, ◌≡◌, ◌≢◌, refl, List, [], ◌∷◌, arith}
use osha.Beacon.External.{Packages, ValidatorState}
use osha.Beacon.Validator.{Validator, set_balance, set_status, punish}
use osha.Beacon.Heap.{Heap, modify}
use osha.Beacon.Database.{Database}
use osha.Beacon.Database.View.{IsValid, SameKeys, IsValid-same}

-- A change that leaves a validator its public key and its index.
abbrev pub KeepsKeys : (Validator → Validator) → Type 0
KeepsKeys f = (v : Validator) → ((f v).pubkey ≡ v.pubkey) × ((f v).index ≡ v.index)

pub set_balance-KeepsKeys : (b : ℕ) → KeepsKeys (set_balance b)
unfolding set_balance
set_balance-KeepsKeys b v = (refl, refl)

pub set_status-KeepsKeys : (status : ValidatorState) → KeepsKeys (set_status status)
unfolding set_status
set_status-KeepsKeys status v = (refl, refl)

pub punish-KeepsKeys : (core : Packages) (penalty : ℕ) → KeepsKeys (punish core penalty)
unfolding punish
punish-KeepsKeys core penalty v = (refl, refl)

modify-SameKeys :
    (p : ℕ) (f : Validator → Validator) (h : Heap) (ps : List ℕ)
    → KeepsKeys f
    → SameKeys ps h (modify p f h)
unfolding modify
modify-SameKeys p f h [] k = tt
modify-SameKeys p f h (q ∷ ps) k = (ground (arith, k (h.validator p)), modify-SameKeys p f h ps k)

-- Such a change keeps every database over the heap well formed.
pub modify-IsValid :
    (p : ℕ) (f : Validator → Validator) (db : Database) (h : Heap)
    → KeepsKeys f
    → IsValid db h
    → IsValid db (modify p f h)
unfolding modify
modify-IsValid p f db h k v = IsValid-same (modify-SameKeys p f h db.validators k) (omega arith) v

pub modify_self :
    (p : ℕ) (f : Validator → Validator) (h : Heap) → (modify p f h).validator p ≡ f (h.validator p)
unfolding modify
modify_self p f h = ground arith

pub modify_ne :
    (p q : ℕ) (f : Validator → Validator) (h : Heap)
    → q ≢ p
    → (modify p f h).validator q ≡ h.validator q
unfolding modify
modify_ne p q f h n = ground arith
