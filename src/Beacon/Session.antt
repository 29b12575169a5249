-- ===== src/Beacon/Session.antt =====
-- What can happen to a mock node, one thing after the other: requests (beacon/server/) and calls of
-- the manager (beacon/manager/manager.go) by the test that owns it.
pub mod Steps
pub mod Updates
pub mod Requests
pub mod Validity
pub mod Keeping
pub mod Isolation
pub mod Reachable
use osha.Base.{ℕ, Bool, true, false, List, [], ◌∷◌, Text, Outcome, ok, fail, panic}
use osha.Beacon.External.{Packages}
use osha.Beacon.Manager
use osha.Beacon.Manager.{BeaconMockManager}
use osha.Beacon.Database.{DatabaseError}
use osha.Beacon.Server.{Request, Json, Node}
use osha.Beacon.Server.Routes.{Route, handle}

pub data Event : Type 0 where
  request : Route → Request → Event
  take_snapshot revert_to_snapshot : Text → Event
  commit_block : Bool → Event
  set_highest_slot : ℕ → Event
  add_validator : ℕ → ℕ → Event
  add_pending_deposit remove_pending_deposit : ℕ → Event

-- A call that panics leaves the manager as it was.
abbrev pub or_unchanged :
    BeaconMockManager → Outcome DatabaseError BeaconMockManager → BeaconMockManager
or_unchanged m (ok m') = m'
or_unchanged m (fail _) = m
or_unchanged m panic = m

module _ (core : Packages) (json : Json) where
  unfoldable pub happen : Event → Node → Node
  happen (request route r) n = (handle core json route r n).1
  happen (take_snapshot name) n =
      let (m, h) = Manager.take_snapshot name n.manager n.heap in record { manager = m; heap = h }
  happen (revert_to_snapshot name) n =
      let (_, m, h) = Manager.revert_to_snapshot name n.manager n.heap in
      record { manager = m; heap = h }
  happen (commit_block b) n = record n { manager = Manager.commit_block b n.manager }
  happen (set_highest_slot slot) n = record n { manager = Manager.set_highest_slot slot n.manager }
  happen (add_validator pubkey creds) n =
      let (_, m, h) = Manager.add_validator core pubkey creds n.manager n.heap in
      record { manager = m; heap = h }
  happen (add_pending_deposit d) n = record n { manager = Manager.add_pending_deposit d n.manager }
  happen (remove_pending_deposit d) n = record n {
    manager = or_unchanged n.manager (Manager.remove_pending_deposit d n.manager);
  }

  unfoldable pub happen_all : List Event → Node → Node
  happen_all [] n = n
  happen_all (e ∷ es) n = happen_all es (happen e n)
