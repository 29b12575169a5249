-- ===== src/Beacon/Session/Keeping.antt =====
-- What a node keeps of a snapshot of beacon/manager/manager.go, through every move.
use native.Mathlib.Nat.{le_trans}
use osha.Base.{
  text_beq_iff, ℕ, ◌≤◌, ◌<◌, ◌≡◌, ◌≢◌, ◌⊎◌, inl, inr, refl, ◌∙◌, List, [], ◌∷◌, some, lookup,
  lookup-insert, Text, text_eq, All, All-map, All-append, arith, Option-cases,
}
use osha.Beacon.External.{Packages}
use osha.Beacon.Heap.{Heap, modify}
use osha.Beacon.Database.{Database, clone_database}
use osha.Beacon.Database.Registry.{
  add_validator-frame, next-add_validator, deposit-add_validator, validators-add_validator,
}
use osha.Beacon.Database.CloneLoop.{Within}
use osha.Beacon.Database.Cloning.{clone_database_fresh, deposit-clone_database}
use osha.Beacon.Database.Slots.{validators-commit_block, validators-set_highest_slot}
use osha.Beacon.Database.Updates.{modify_ne}
use osha.Beacon.Manager
use osha.Beacon.Server.{Node}
use osha.Beacon.Session.Steps.{
  In, Step, stay, commit, raise, deposit, register, change, Move, move, take, revert, Spares, taken,
  reverted, registered,
}
use osha.Beacon.Session.Validity.{Extends, Extends-refl, clone_database-Extends}

-- A pointer to none of the objects from `lo` up to `hi`.
abbrev pub Outside : ℕ → ℕ → ℕ → Type 0
Outside lo hi p = (p < lo) ⊎ (hi ≤ p)

-- The node keeps the snapshot `s`, whose objects lie from `lo` up to `hi`, and these are as they
-- were in the heap `h`; the current database points to none of them.
pub record Keeps (name : Text) (s : Database) (lo hi : ℕ) (h : Heap) (n : Node) : Type 0 where
  pub kept : lookup name n.manager.snapshots ≡ some s
  pub passed : hi ≤ n.heap.next
  pub same : (x : ℕ) → Within lo hi x → n.heap.validator x ≡ h.validator x
  pub deposits : n.heap.deposit ≡ h.deposit
  pub apart : All (Outside lo hi) n.manager.database.validators

In-Outside : (lo hi p : ℕ) (ps : List ℕ) → In p ps → All (Outside lo hi) ps → Outside lo hi p
In-Outside lo hi p [] i a = absurd i
In-Outside lo hi p (q ∷ ps) (inl e) a = ground arith
In-Outside lo hi p (q ∷ ps) (inr i) a = In-Outside lo hi p ps i a.1

module _ (name : Text) (s : Database) (lo hi : ℕ) (h : Heap) (core : Packages) where
  -- A heap with more objects still has those of the snapshot.
  Extends-Keeps :
      (n n' : Node)
      → Keeps name s lo hi h n
      → Extends n.heap n'.heap
      → n'.heap.deposit ≡ n.heap.deposit
      → lookup name n'.manager.snapshots ≡ some s
      → All (Outside lo hi) n'.manager.database.validators
      → Keeps name s lo hi h n'
  Extends-Keeps n n' k e d kept apart = record {
    kept = kept;
    passed = le_trans k.passed e.more;
    same = λ x w. e.same x (le_trans w.1 k.passed) ∙ k.same x w;
    deposits = d ∙ k.deposits;
    apart = apart;
  }

  registered-Keeps :
      (pubkey creds : ℕ) (n : Node)
      → Keeps name s lo hi h n
      → Keeps name s lo hi h (registered core pubkey creds n)
  unfolding Manager.add_validator
  registered-Keeps pubkey creds n k =
      let db = n.manager.database in
      Extends-Keeps n (registered core pubkey creds n) k
        (record {
          more = next-add_validator core pubkey creds db n.heap;
          same = add_validator-frame core pubkey creds db n.heap;
        })
        (deposit-add_validator core pubkey creds db n.heap) k.kept
        (elim (validators-add_validator core pubkey creds db n.heap) [
          | inl e ↦ rw e k.apart
          | inr e ↦ rw e (
              All-append (Outside lo hi) db.validators (n.heap.next ∷ []) k.apart
                (inr k.passed, tt))
        ])

  Step-Keeps : {n n' : Node} → Step core n n' → Keeps name s lo hi h n → Keeps name s lo hi h n'
  unfolding modify
  Step-Keeps stay k = k
  Step-Keeps {n} (commit b) k =
      Extends-Keeps n _ k (Extends-refl n.heap) refl k.kept (rw validators-commit_block k.apart)
  Step-Keeps {n} (raise slot) k =
      Extends-Keeps n _ k (Extends-refl n.heap) refl k.kept (rw validators-set_highest_slot k.apart)
  Step-Keeps {n} (deposit ds) k = Extends-Keeps n _ k (Extends-refl n.heap) refl k.kept k.apart
  Step-Keeps {n} (register pubkey creds) k = registered-Keeps pubkey creds n k
  Step-Keeps {n} (change p f keeps i) k = record {
    kept = k.kept;
    passed = k.passed;
    same = λ x w.
        let out = In-Outside lo hi p n.manager.database.validators i k.apart in
        modify_ne p x f n.heap (ground arith) ∙ k.same x w;
    deposits = k.deposits;
    apart = k.apart;
  }

  taken-Keeps :
      (name' : Text) (n : Node)
      → name ≢ name'
      → Keeps name s lo hi h n
      → Keeps name s lo hi h (taken name' n)
  unfolding Manager.take_snapshot
  taken-Keeps name' n ne k =
      let db = n.manager.database in
      Extends-Keeps n (taken name' n) k (clone_database-Extends db n.heap)
        (deposit-clone_database db n.heap)
        (ground (
          arith,
          k.kept,
          ne,
          text_beq_iff name' name,
          lookup-insert name' name (clone_database db n.heap).0 n.manager.snapshots,
        ))
        k.apart

  reverted-Keeps :
      (name' : Text) (n : Node) → Keeps name s lo hi h n → Keeps name s lo hi h (reverted name' n)
  unfolding Manager.revert_to_snapshot
  reverted-Keeps name' n k = elim (Option-cases (lookup name' n.manager.snapshots)) [
    | inl e ↦ rw (e, Manager.revert_to_snapshot) k
    | inr (t, e) ↦
        rw (e, Manager.revert_to_snapshot)
          (Extends-Keeps n _ k (clone_database-Extends t n.heap) (deposit-clone_database t n.heap)
            k.kept
            (All-map {P = Within n.heap.next (clone_database t n.heap).1.next}
              (λ q w. inr (le_trans k.passed w.0)) (clone_database t n.heap).0.validators
              (clone_database_fresh t n.heap)))
  ]

  pub Move-Keeps :
      {n n' : Node} (m : Move core n n')
      → Spares name core m
      → Keeps name s lo hi h n
      → Keeps name s lo hi h n'
  Move-Keeps (move st) sp k = Step-Keeps st k
  Move-Keeps {n} (take name') sp k = taken-Keeps name' n sp k
  Move-Keeps {n} (revert name') sp k = reverted-Keeps name' n k
