-- ===== src/Beacon/Examples/Sessions.antt =====
-- The theorems about what happens to a node of beacon/ at the small node.
use osha.Base.{◌≡◌, ap, refl, true, List, [], ◌∷◌, none, Text, bytes, text_beq, ok, text_eq}
use osha.Beacon.Database.View.{view}
use osha.Beacon.Manager
use osha.Beacon.Server.{Request, Node, get}
use osha.Beacon.Server.Routes.{slash_route}
use osha.Beacon.Session.{
  Event, request, take_snapshot, revert_to_snapshot, commit_block, add_validator,
  add_pending_deposit, happen, happen_all,
}
use osha.Beacon.Database.{new_database}
use osha.Beacon.Database.Updates.{set_balance-KeepsKeys}
use osha.Beacon.Heap.{modify}
use osha.Beacon.Validator.{set_balance}
use osha.Beacon.Session.Reachable.{
  replaced, here, next, event, replace, write_through, Reaches-IsValidNode,
}
use osha.Beacon.Session.Validity.{IsValidNode, Extends-refl, new_database-IsValid}
use osha.Beacon.Session.Isolation.{revert-take_snapshot}
use osha.Beacon.Examples.{core, json, database, heap, node, node-IsValid, differ}

abbrev slash_query : Request
slash_query = record {
  method = get;
  query = (bytes "id", bytes "0" ∷ []) ∷ (bytes "penalty", bytes "1000" ∷ []) ∷ [];
  vars = [];
  body = none;
}

-- A slashing, a registration, a block, another snapshot and a return to the first.
abbrev events : List Event
events =
    request slash_route slash_query
    ∷ add_validator 9 1
    ∷ commit_block true
    ∷ take_snapshot (bytes "later")
    ∷ revert_to_snapshot (bytes "base")
    ∷ add_pending_deposit 5
    ∷ []

abbrev slashed_node : Node
slashed_node = happen core json (request slash_route slash_query) node

abbrev replaced_node : Node
replaced_node = replaced (new_database 3) slashed_node.heap slashed_node

-- A slashing, another database, and a write through a pointer of the first one.
Reaches-IsValidNode_example :
    IsValidNode (record replaced_node { heap = modify 0 (set_balance 5) replaced_node.heap })
Reaches-IsValidNode_example =
    Reaches-IsValidNode core json
      (next
        (next (next here (event (request slash_route slash_query))) (
          replace (new_database 3) slashed_node.heap (Extends-refl slashed_node.heap)
            (new_database-IsValid 3 slashed_node.heap)))
        (write_through 0 (set_balance 5) (set_balance-KeepsKeys 5)))
      node-IsValid

abbrev name_of : Text → Event → Text
name_of other (take_snapshot name) = name
name_of other _ = other

revert-take_snapshot_example :
    let later =
      happen_all core json events (happen core json (take_snapshot (bytes "base")) node) in
    let r = Manager.revert_to_snapshot (bytes "base") later.manager later.heap in
    (r.0 ≡ ok tt) × (view r.1.database r.2 ≡ record (view database heap) { deposits = [] })
unfolding text_beq
revert-take_snapshot_example =
    revert-take_snapshot core json (bytes "base") events node node-IsValid (
      λ e. cc,
      (
        λ e. cc,
        (
          λ e. cc,
          (
            λ e. differ (bytes "later") (bytes "base") refl (ap (name_of []) e),
            (λ e. cc, (λ e. cc, tt)),
          ),
        ),
      ),
    )
