-- ===== src/Beacon/Session/Isolation.antt =====
-- A snapshot of beacon/manager/manager.go is out of reach of all that happens after it was taken.
use native.Mathlib.Nat.{le_refl}
use osha.Base.{
  ℕ, ◌<◌, ◌≡◌, ◌≢◌, inl, refl, ap, ◌∙◌, List, [], ◌∷◌, map, lookup-insert, Text, text_eq, ==-refl,
  ok, All, All-map, map-agree,
}
use osha.Beacon.External.{Packages}
use osha.Beacon.Validator.{Validator}
use osha.Beacon.Heap.{Heap}
use osha.Beacon.Database.{Database, clone_database}
use osha.Beacon.Database.View.{View, view, IsValid}
use osha.Beacon.Database.CloneLoop.{Within}
use osha.Beacon.Database.Cloning.{clone_database_fresh, view-clone_database}
use osha.Beacon.Manager
use osha.Beacon.Server.{Json, Node}
use osha.Beacon.Session.{Event, take_snapshot, happen, happen_all}
use osha.Beacon.Session.Steps.{take, taken}
use osha.Beacon.Session.Validity.{
  IsValidNode, Move-IsValidNode, happen-Move, happen-Spares, happen_all-IsValidNode,
}
use osha.Beacon.Session.Keeping.{Keeps, Move-Keeps}

-- The node as `take_snapshot` leaves it keeps the clone.
taken-Keeps-self :
    (name : Text) (n : Node)
    → IsValidNode n
    → let c = clone_database n.manager.database n.heap in
      Keeps name c.0 n.heap.next c.1.next c.1 (taken name n)
unfolding Manager.take_snapshot
taken-Keeps-self name n v =
    let c = clone_database n.manager.database n.heap in
    record {
      kept = rw lookup-insert (rw (==-refl name));
      passed = le_refl c.1.next;
      same = λ x w. refl;
      deposits = refl;
      apart =
          All-map {P = λ p. p < n.heap.next} (λ p lt. inl lt) n.manager.database.validators
            v.current.allocated;
    }

module _ (core : Packages) (json : Json) (name : Text) where
  happen_all-Keeps :
      (s : Database) (lo hi : ℕ) (h : Heap) (es : List Event) (n : Node)
      → IsValidNode n
      → All (λ e. e ≢ take_snapshot name) es
      → Keeps name s lo hi h n
      → Keeps name s lo hi h (happen_all core json es n)
  unfolding happen_all
  happen_all-Keeps s lo hi h [] n v a k = k
  happen_all-Keeps s lo hi h (e ∷ es) n v a k =
      let m = happen-Move core json e n v.current in
      happen_all-Keeps s lo hi h es (happen core json e n) (Move-IsValidNode core m v) a.1
        (Move-Keeps name s lo hi h core m (happen-Spares core json name e n v.current a.0) k)

  -- What a return to a snapshot that is kept brings back.
  reverted-view :
      (db : Database) (h₀ : Heap) (n : Node)
      → IsValid db h₀
      → IsValidNode n
      → let c = clone_database db h₀ in
        Keeps name c.0 h₀.next c.1.next c.1 n
        → let r = Manager.revert_to_snapshot name n.manager n.heap in
          (r.0 ≡ ok tt) × (view r.1.database r.2 ≡ record (view db h₀) { deposits = [] })
  unfolding Manager.revert_to_snapshot
  reverted-view db h₀ n vdb v k =
      let c = clone_database db h₀ in
      let contents : map n.heap.validator c.0.validators ≡ map c.1.validator c.0.validators =
        map-agree n.heap.validator c.1.validator c.0.validators (
          All-map {P = Within h₀.next c.1.next} (λ x w. k.same x w) c.0.validators
            (clone_database_fresh db h₀)) in
      rw (k.kept, Manager.revert_to_snapshot)
        (
          refl,
          view-clone_database c.0 n.heap (v.saved name c.0 k.kept)
              ∙ ap
                  (λ (vs : List Validator). record (view c.0 n.heap) {
                    validators = vs;
                    deposits = [];
                  })
                  contents
              ∙ ap (λ (w : View). record w { deposits = [] }) (view-clone_database db h₀ vdb),
        )

  -- A return to a snapshot succeeds and brings back what the database showed when the snapshot was
  -- taken, but for the pending deposits, of which there are none then. It does not matter what
  -- happened to the well-formed node in between: any requests, registrations, new slots, changes of
  -- validators, other snapshots and returns to any of them, in any order, but no further snapshot
  -- under the same name.
  pub revert-take_snapshot :
      (es : List Event) (n : Node)
      → IsValidNode n
      → All (λ e. e ≢ take_snapshot name) es
      → let later = happen_all core json es (happen core json (take_snapshot name) n) in
        let r = Manager.revert_to_snapshot name later.manager later.heap in
        (r.0 ≡ ok tt)
        × (view r.1.database r.2 ≡ record (view n.manager.database n.heap) { deposits = [] })
  unfolding happen
  revert-take_snapshot es n v a =
      let valid = Move-IsValidNode core (take name) v in
      let c = clone_database n.manager.database n.heap in
      reverted-view n.manager.database n.heap (happen_all core json es (taken name n)) v.current
        (happen_all-IsValidNode core json es (taken name n) valid)
        (happen_all-Keeps c.0 n.heap.next c.1.next c.1 es (taken name n) valid a
          (taken-Keeps-self name n v))
