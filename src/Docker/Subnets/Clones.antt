-- ===== src/Docker/Subnets/Clones.antt =====
-- The pool of subnets of docker/ through the snapshots of docker/manager.go.
use osha.Base.{
  ℕ, ◌≡◌, refl, ◌∙◌, ap, inl, inr, [], ◌∷◌, none, some, Text, text_eq, text_beq, Dict, lookup,
  insert, copy, lookup-copy, lookup-insert, count, arith, Outcome, ok, fail, panic, Bool-cases,
  Option-cases, Outcome-cases, subst,
}
use osha.Docker.{State, Codec, Codecs, DockerError, through, clone_map, clone_state, new_state}
use osha.Docker.Manager.{DockerMockManager, take_snapshot, revert_to_snapshot}
use osha.Docker.Subnets.{IsPool, OnOk, OnOk-bind, not_inserted}
use osha.Docker.Subnets.Pool.{values, IsUnique, IsUnique-insert, count-insert}

IsUnique-copy : (m : Dict Text ℕ) → IsUnique m → IsUnique (copy m)
unfolding copy
IsUnique-copy [] u = tt
IsUnique-copy ((k, v) ∷ m) u = IsUnique-insert k v (copy m) (IsUnique-copy m u.1)

count-copy : (i : ℕ) (m : Dict Text ℕ) → IsUnique m → count i (values (copy m)) ≡ count i (values m)
unfolding copy
count-copy i [] u = refl
count-copy i ((k, v) ∷ m) u =
    ground (arith, count-copy i m u.1, count-insert i v k (copy m) (lookup-copy k m ∙ u.0))

-- A loop of `Clone` that succeeds loses no name.
clone_map-names :
    {V : Type 0} (codec : Codec V) (k : Text) (m m' : Dict Text V)
    → clone_map codec m ≡ ok m'
    → lookup k m' ≡ none
    → lookup k m ≡ none
unfolding clone_map lookup
clone_map-names codec k [] m' = λ e f. refl
clone_map-names codec k ((name, v) ∷ m) m' = elim (Outcome-cases (through codec name v)) [
  | inl (w, g) ↦ elim (Outcome-cases (clone_map codec m)) [
    | inl (rest, h) ↦
        rw (g, h, clone_map)
          (λ e f.
            let same : insert name w rest ≡ m' = cc e in
            let (miss, gone) = not_inserted name k w rest (ap (lookup k) same ∙ f) in
            rw miss (clone_map-names codec k m rest h gone))
    | inr (inl (x, h)) ↦ rw (g, h, clone_map) (λ e f. absurd (cc))
    | inr (inr h) ↦ rw (g, h, clone_map) (λ e f. absurd (cc))
  ]
  | inr (inl (x, g)) ↦ rw (g, clone_map) (λ e f. absurd (cc))
  | inr (inr g) ↦ rw (g, clone_map) (λ e f. absurd (cc))
]

pub clone_state-IsPool :
    (codecs : Codecs) (s : State) → IsPool s → OnOk IsPool (clone_state codecs s)
unfolding clone_state new_state
clone_state-IsPool codecs s v =
    OnOk-bind IsPool (clone_map codecs.containers s.containers) _ λ containers.
      OnOk-bind IsPool (clone_map codecs.volumes s.volumes) _ λ volumes.
        elim (Outcome-cases (clone_map codecs.networks s.networks)) [
          | inl (networks, e) ↦ rw e (record {
            each = λ i. omega (arith, count-copy i s.used_subnets v.unique, v.each i);
            unique = IsUnique-copy s.used_subnets v.unique;
            owned = λ name f.
                lookup-copy name s.used_subnets
                ∙ v.owned name (clone_map-names codecs.networks name s.networks networks e f);
          })
          | inr (inl (x, e)) ↦ rw e tt
          | inr (inr e) ↦ rw e tt
        ]

-- The state and every snapshot.
pub record HavePools (m : DockerMockManager) : Type 0 where
  pub current : IsPool m.state
  pub saved : (name : Text) (s : State) → lookup name m.snapshots ≡ some s → IsPool s

-- A call that fails leaves the manager as it was.
abbrev pub or_unchanged :
    DockerMockManager → Outcome DockerError DockerMockManager → DockerMockManager
or_unchanged m (ok m') = m'
or_unchanged m (fail e) = m
or_unchanged m panic = m

module _ (codecs : Codecs) (name : Text) (m : DockerMockManager) (v : HavePools m) where
  pub take_snapshot-HavePools : HavePools (or_unchanged m (take_snapshot codecs name m))
  unfolding take_snapshot
  take_snapshot-HavePools = elim (Outcome-cases (clone_state codecs m.state)) [
    | inl (c, e) ↦
        let pool : IsPool c = subst (OnOk IsPool) e (clone_state-IsPool codecs m.state v.current) in
        rw (e, take_snapshot)
          (record {
            current = v.current;
            saved = λ other s found. elim (Bool-cases (text_beq name other)) [
              | inl hit ↦
                  let same : c ≡ s =
                    ground (arith, found, lookup-insert name other c m.snapshots) in
                  subst IsPool same pool
              | inr miss ↦
                  v.saved other s (ground (arith, found, lookup-insert name other c m.snapshots))
            ];
          })
    | inr (inl (x, e)) ↦ rw (e, take_snapshot) v
    | inr (inr e) ↦ rw (e, take_snapshot) v
  ]

  pub revert_to_snapshot-HavePools : HavePools (or_unchanged m (revert_to_snapshot codecs name m))
  unfolding revert_to_snapshot
  revert_to_snapshot-HavePools = elim (Option-cases (lookup name m.snapshots)) [
    | inl f ↦ rw (f, revert_to_snapshot) v
    | inr (snapshot, f) ↦ elim (Outcome-cases (clone_state codecs snapshot)) [
      | inl (c, e) ↦
          let pool : IsPool c =
            subst (OnOk IsPool) e (clone_state-IsPool codecs snapshot (v.saved name snapshot f)) in
          rw (f, revert_to_snapshot, e) (record { current = pool; saved = v.saved })
      | inr (inl (x, e)) ↦ rw (f, revert_to_snapshot, e) v
      | inr (inr e) ↦ rw (f, revert_to_snapshot, e) v
    ]
  ]
