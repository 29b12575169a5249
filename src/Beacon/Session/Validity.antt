-- ===== src/Beacon/Session/Validity.antt =====
-- A node stays well formed: its database, and every snapshot that it keeps.
use osha.Base.{
  ℕ, ◌≤◌, ◌<◌, ◌≡◌, ◌≢◌, refl, sym, ap, subst, List, [], ◌∷◌, ◌++◌, some, lookup, lookup-empty,
  lookup-insert, Text, text_eq, ◌==◌, All-map, arith, inl, inr, Bool-cases, Option-cases, nat_eq,
}
use osha.Beacon.External.{Packages}
use osha.Beacon.Validator.{Validator}
use osha.Beacon.Heap.{Heap}
use osha.Beacon.Config.{Config}
use osha.Beacon.Database
use osha.Beacon.Database.{Database, new_database, clone_database}
use osha.Beacon.Database.View.{IsValid, IsValid-same}
use osha.Beacon.Database.Registry.{add_validator-IsValid, add_validator-frame, next-add_validator}
use osha.Beacon.Database.Cloning.{clone_database-IsValid, clone_database-frame, next-clone_database}
use osha.Beacon.Database.Slots.{commit_block-IsValid, set_highest_slot-IsValid}
use osha.Beacon.Database.Deposits.{remove_pending_deposit_lem}
use osha.Beacon.Database.Updates.{modify-IsValid}
use osha.Beacon.Manager
use osha.Beacon.Manager.{BeaconMockManager, new_beacon_mock_manager}
use osha.Beacon.Server.{Json, Node}
use osha.Beacon.Session.{
  Event, request, take_snapshot, revert_to_snapshot, commit_block, set_highest_slot, add_validator,
  add_pending_deposit, remove_pending_deposit, happen, happen_all, or_unchanged,
}
use osha.Beacon.Session.Steps.{
  Step, stay, commit, raise, deposit, register, change, Move, move, take, revert, Spares, taken,
  reverted,
}
use osha.Beacon.Session.Requests.{handle-Step}

pub record IsValidNode (n : Node) : Type 0 where
  pub current : IsValid n.manager.database n.heap
  pub saved :
      (name : Text) (s : Database) → lookup name n.manager.snapshots ≡ some s → IsValid s n.heap

-- The objects of `h` are as they were in `h'`, which may have more.
pub record Extends (h h' : Heap) : Type 0 where
  pub more : h.next ≤ h'.next
  pub same : (x : ℕ) → x < h.next → h'.validator x ≡ h.validator x

pub Extends-refl : (h : Heap) → Extends h h
Extends-refl h = record { more = omega arith; same = λ x lt. refl }

pub Extends-IsValid : (s : Database) (h h' : Heap) → Extends h h' → IsValid s h → IsValid s h'
Extends-IsValid s h h' e v =
    IsValid-same
      (All-map {P = λ p. p < h.next}
        (λ p lt. (
          ap (λ (w : Validator). w.pubkey) (e.same p lt),
          ap (λ (w : Validator). w.index) (e.same p lt),
        ))
        s.validators v.allocated)
      e.more v

pub clone_database-Extends : (db : Database) (h : Heap) → Extends h (clone_database db h).1
clone_database-Extends db h = record {
  more = next-clone_database db h;
  same = clone_database-frame db h;
}

deposits-IsValid :
    (ds : List ℕ) (db : Database) (h : Heap)
    → IsValid db h
    → IsValid (record db { pending_deposits = ds }) h
deposits-IsValid ds db h v = record {
  allocated = v.allocated;
  indexed = v.indexed;
  distinct = v.distinct;
  mapped = v.mapped;
  synced = v.synced;
}

module _ (core : Packages) where
  taken-IsValidNode : (name : Text) (n : Node) → IsValidNode n → IsValidNode (taken name n)
  unfolding Manager.take_snapshot
  taken-IsValidNode name n v =
      let e = clone_database-Extends n.manager.database n.heap in
      let c = clone_database n.manager.database n.heap in
      record {
        current = Extends-IsValid _ n.heap _ e v.current;
        saved = λ name' s found. elim (Bool-cases (name == name')) [
          | inl hit ↦
              let q : c.0 ≡ s = ground (arith, lookup-insert name name' c.0 n.manager.snapshots) in
              subst (λ t. IsValid t c.1) q
                (clone_database-IsValid n.manager.database n.heap v.current)
          | inr miss ↦
              Extends-IsValid s n.heap _ e
                (v.saved name' s (ground (arith, lookup-insert name name' c.0 n.manager.snapshots)))
        ];
      }

  reverted-IsValidNode : (name : Text) (n : Node) → IsValidNode n → IsValidNode (reverted name n)
  unfolding Manager.revert_to_snapshot
  reverted-IsValidNode name n v = elim (Option-cases (lookup name n.manager.snapshots)) [
    | inl e ↦ rw (e, Manager.revert_to_snapshot) v
    | inr (s, e) ↦
        rw (e, Manager.revert_to_snapshot)
          (record {
            current = clone_database-IsValid s n.heap (v.saved name s e);
            saved = λ name' t found.
                Extends-IsValid t n.heap _ (clone_database-Extends s n.heap)
                  (v.saved name' t found);
          })
  ]

  -- A step keeps the node well formed.
  pub Step-IsValidNode : {n n' : Node} → Step core n n' → IsValidNode n → IsValidNode n'
  unfolding Manager.add_validator
  Step-IsValidNode stay v = v
  Step-IsValidNode (commit b) v = record {
    current = commit_block-IsValid b v.current;
    saved = v.saved;
  }
  Step-IsValidNode (raise slot) v = record {
    current = set_highest_slot-IsValid slot v.current;
    saved = v.saved;
  }
  Step-IsValidNode (deposit ds) v = record {
    current = deposits-IsValid ds _ _ v.current;
    saved = v.saved;
  }
  Step-IsValidNode {n} (register pubkey creds) v =
      let db = n.manager.database in
      record {
        current = add_validator-IsValid core pubkey creds db n.heap v.current;
        saved = λ name s found.
            Extends-IsValid s n.heap _
              (record {
                more = next-add_validator core pubkey creds db n.heap;
                same = add_validator-frame core pubkey creds db n.heap;
              })
              (v.saved name s found);
      }
  Step-IsValidNode {n} (change p f keeps i) v = record {
    current = modify-IsValid p f n.manager.database n.heap keeps v.current;
    saved = λ name s found. modify-IsValid p f s n.heap keeps (v.saved name s found);
  }

  pub Move-IsValidNode : {n n' : Node} → Move core n n' → IsValidNode n → IsValidNode n'
  Move-IsValidNode (move s) v = Step-IsValidNode s v
  Move-IsValidNode {n} (take name) v = taken-IsValidNode name n v
  Move-IsValidNode {n} (revert name) v = reverted-IsValidNode name n v

  removed-Step :
      (d : ℕ) (n : Node)
      → Step core n (record n {
        manager = or_unchanged n.manager (Manager.remove_pending_deposit d n.manager);
      })
  unfolding Manager.remove_pending_deposit
  removed-Step d n = elim (remove_pending_deposit_lem d n.manager.database) [
    | inl (_, e) ↦ rw (e, Manager.remove_pending_deposit) stay
    | inr (_, (ds, e, _)) ↦ rw (e, Manager.remove_pending_deposit) (deposit ds)
  ]

module _ (core : Packages) (json : Json) where
  -- Every event is a move.
  pub happen-Move :
      (e : Event) (n : Node)
      → IsValid n.manager.database n.heap
      → Move core n (happen core json e n)
  unfolding happen Manager.commit_block Manager.set_highest_slot Manager.add_pending_deposit
      Database.add_pending_deposit
  happen-Move (request route r) n v = move (handle-Step core json route r n v)
  happen-Move (take_snapshot name) n v = take name
  happen-Move (revert_to_snapshot name) n v = revert name
  happen-Move (commit_block b) n v = move (commit b)
  happen-Move (set_highest_slot slot) n v = move (raise slot)
  happen-Move (add_validator pubkey creds) n v = move (register pubkey creds)
  happen-Move (add_pending_deposit d) n v =
      move (deposit (n.manager.database.pending_deposits ++ d ∷ []))
  happen-Move (remove_pending_deposit d) n v = move (removed-Step core d n)

  pub happen-Spares :
      (name : Text) (e : Event) (n : Node) (v : IsValid n.manager.database n.heap)
      → e ≢ take_snapshot name
      → Spares name core (happen-Move e n v)
  unfolding happen-Move
  happen-Spares name (take_snapshot name') n v ne = λ p. ne (ap take_snapshot (sym p))
  happen-Spares name (request route r) n v ne = tt
  happen-Spares name e n v ne = tt

  -- Any events, in any order, keep a well-formed node well formed.
  pub happen_all-IsValidNode :
      (es : List Event) (n : Node) → IsValidNode n → IsValidNode (happen_all core json es n)
  unfolding happen_all
  happen_all-IsValidNode [] n v = v
  happen_all-IsValidNode (e ∷ es) n v =
      happen_all-IsValidNode es (happen core json e n)
        (Move-IsValidNode core (happen-Move e n v.current) v)

-- A new database is well formed over every heap.
pub new_database-IsValid : (first : ℕ) (h : Heap) → IsValid (new_database first) h
unfolding new_database Database.View.find
new_database-IsValid first h = record {
  allocated = tt;
  indexed = tt;
  distinct = tt;
  mapped = λ k. lookup-empty k;
  synced = omega arith;
}

-- A new manager is well formed over every heap.
pub new_beacon_mock_manager-IsValidNode :
    (config : Config) (h : Heap)
    → IsValidNode (record { manager = new_beacon_mock_manager config; heap = h })
unfolding new_beacon_mock_manager
new_beacon_mock_manager-IsValidNode config h = record {
  current = new_database-IsValid config.first_execution_block_index h;
  saved = λ name s found. cc (lookup-empty {V = Database} name);
}
