-- ===== src/Beacon/Provider/Syncing.antt =====
-- `NodeSyncing` of beacon/manager/beacon-interface.go.
use osha.Base.{◌+◌, ◌≤◌, ◌<◌, ◌≡◌, ◌↔◌, true, arith, u64_mod}
use osha.Beacon.Heap.{Heap}
use osha.Beacon.Database.View.{IsValid}
use osha.Beacon.Manager.{BeaconMockManager}
use osha.Beacon.Provider.{node_syncing}

-- On a well-formed database whose slots fit 64 bits, the sync status adds up: the local head and
-- the distance make the head slot that is reported, which the local head does not pass, and the
-- node counts as syncing exactly when the distance is not 0.
pub node_syncing_lem :
    (m : BeaconMockManager) (h : Heap)
    → IsValid m.database h
    → m.database.highest_slot < u64_mod
    → let status = node_syncing m in
      (m.database.current_slot + status.sync_distance ≡ status.head_slot)
      × (m.database.current_slot ≤ status.head_slot)
      × ((status.is_syncing ≡ true) ↔ (0 < status.sync_distance))
unfolding node_syncing
node_syncing_lem m h v lt = ground (arith, v.synced)
