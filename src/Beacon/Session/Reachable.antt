-- ===== src/Beacon/Session/Reachable.antt =====
-- The nodes that a test can reach: by the events of Beacon/Session, by `SetDatabase` of
-- beacon/manager/manager.go, and by writes through a `*Validator` that it holds.
use osha.Base.{ℕ}
use osha.Beacon.External.{Packages}
use osha.Beacon.Validator.{Validator}
use osha.Beacon.Heap.{Heap, modify}
use osha.Beacon.Database.{Database}
use osha.Beacon.Database.View.{IsValid}
use osha.Beacon.Database.Updates.{KeepsKeys, modify-IsValid}
use osha.Beacon.Manager.{set_database}
use osha.Beacon.Server.{Json, Node}
use osha.Beacon.Session.{Event, happen}
use osha.Beacon.Session.Validity.{
  IsValidNode, Extends, Extends-IsValid, happen-Move, Move-IsValidNode,
}

-- The node with another database, whose objects may be new.
abbrev pub replaced : Database → Heap → Node → Node
replaced db h n = record { manager = set_database db n.manager; heap = h }

-- A test has made the other database well formed, and that left the old objects as they were. The
-- pointer may come from any database that the node has or had; a write leaves the public key and the
-- index alone, as SetBalance, SetStatus and Slash do.
pub data Happens (core : Packages) (json : Json) (n : Node) : Node → Type 0 where
  event : (e : Event) → Happens core json n (happen core json e n)
  replace :
      (db : Database) (h : Heap)
      → Extends n.heap h
      → IsValid db h
      → Happens core json n (replaced db h n)
  write_through :
      (p : ℕ) (f : Validator → Validator)
      → KeepsKeys f
      → Happens core json n (record n { heap = modify p f n.heap })

pub data Reaches (core : Packages) (json : Json) (n : Node) : Node → Type 0 where
  here : Reaches core json n n
  next :
      {n' n'' : Node} → Reaches core json n n' → Happens core json n' n'' → Reaches core json n n''

module _ (core : Packages) (json : Json) where
  Happens-IsValidNode : {n n' : Node} → Happens core json n n' → IsValidNode n → IsValidNode n'
  unfolding set_database
  Happens-IsValidNode {n} (event e) v =
      Move-IsValidNode core (happen-Move core json e n v.current) v
  Happens-IsValidNode {n} (replace db h extends valid) v = record {
    current = valid;
    saved = λ name s found. Extends-IsValid s n.heap h extends (v.saved name s found);
  }
  Happens-IsValidNode {n} (write_through p f keeps) v = record {
    current = modify-IsValid p f n.manager.database n.heap keeps v.current;
    saved = λ name s found. modify-IsValid p f s n.heap keeps (v.saved name s found);
  }

  -- A well-formed node stays well formed, its database and each of its snapshots, through any sequence
  -- of requests, registrations, new slots, new highest slots, changes of the pending deposits,
  -- snapshots, returns to snapshots, replacements of the database by another well-formed one that
  -- leaves the old validators alone, and writes through pointers to validators that leave their public
  -- keys and indices alone.
  pub Reaches-IsValidNode : {n n' : Node} → Reaches core json n n' → IsValidNode n → IsValidNode n'
  Reaches-IsValidNode here v = v
  Reaches-IsValidNode (next r h) v = Happens-IsValidNode h (Reaches-IsValidNode r v)
