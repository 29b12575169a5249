-- ===== src/Docker/Cloning.antt =====
-- `Clone` of docker/state.go and the snapshots of docker/manager.go: what a clone shows.
use osha.Base.{
  ℕ, ◌≡◌, refl, sym, ap, ◌∙◌, List, [], ◌∷◌, Option, none, some, Text, text_eq, Dict, lookup,
  insert, copy, ==-refl, lookup-empty, lookup-insert, lookup-copy, ok, All, Bool-cases, text_beq,
  inl, inr, ◌==◌, if◌then◌else◌,
}
use osha.Docker.Objects.{Container, Volume, Network}
use osha.Docker.{State, Codec, Codecs, through, clone_map, clone_state, new_state}
use osha.Docker.Manager.{DockerMockManager, take_snapshot, revert_to_snapshot}

-- What can be seen of a state: what its maps hold under each name.
pub record Observed : Type 0 where
  pub containers : Text → Option Container
  pub volumes : Text → Option Volume
  pub networks : Text → Option Network
  pub available_subnets : List ℕ
  pub used_subnets : Text → Option ℕ
  pub network_indices : Text → Option ℕ
  pub service_hashes : Text → Option Text

abbrev pub observe : State → Observed
observe s = record {
  containers = λ name. lookup name s.containers;
  volumes = λ name. lookup name s.volumes;
  networks = λ name. lookup name s.networks;
  available_subnets = s.available_subnets;
  used_subnets = λ name. lookup name s.used_subnets;
  network_indices = λ name. lookup name s.network_indices;
  service_hashes = λ name. lookup name s.service_hashes;
}

-- An object that goes through JSON comes back unchanged.
abbrev pub ComesBack : {V : Type 0} → Codec V → V → Type 0
ComesBack codec v = (t : Text) × (codec.marshal v ≡ some t) × (codec.unmarshal t ≡ some v)

abbrev pub AllComeBack : {V : Type 0} → Codec V → Dict Text V → Type 0
AllComeBack codec m = All (λ entry. ComesBack codec entry.1) m

-- The objects of the state are "supposed to be JSON-exportable": they come back unchanged.
pub record IsExportable (codecs : Codecs) (s : State) : Type 0 where
  pub of_containers : AllComeBack codecs.containers s.containers
  pub of_volumes : AllComeBack codecs.volumes s.volumes
  pub of_networks : AllComeBack codecs.networks s.networks

through_ok :
    {V : Type 0} (codec : Codec V) (name : Text) (v : V)
    → ComesBack codec v
    → through codec name v ≡ ok v
unfolding through
through_ok codec name v (t, e, e') = rw (e, e', through)

AllComeBack-insert :
    {V : Type 0} (codec : Codec V) (name : Text) (v : V) (m : Dict Text V)
    → ComesBack codec v
    → AllComeBack codec m
    → AllComeBack codec (insert name v m)
unfolding insert
AllComeBack-insert codec name v [] b a = (b, tt)
AllComeBack-insert codec name v ((k, w) ∷ m) b a = elim (Bool-cases (text_beq k name)) [
  | inl hit ↦ rw (hit, insert) (b, a.1)
  | inr miss ↦ rw (miss, insert) (a.0, AllComeBack-insert codec name v m b a.1)
]

lookup-cons :
    {V : Type 0} (k j : Text) (v : V) (m : Dict Text V)
    → lookup k ((j, v) ∷ m) ≡ (if j == k then some v else lookup k m)
unfolding lookup
lookup-cons k j v m = refl

cloned :
    {V : Type 0} (codec : Codec V) (m : Dict Text V)
    → AllComeBack codec m
    → (m' : Dict Text V) × (clone_map codec m ≡ ok m')
      × ((k : Text) → lookup k m' ≡ lookup k m)
      × AllComeBack codec m'
unfolding clone_map
cloned codec [] a = ([], refl, (λ k. refl), tt)
cloned codec ((name, v) ∷ m) a =
    let (rest, e, same, back) = cloned codec m a.1 in
    (
      insert name v rest,
      rw (through_ok codec name v a.0, e, clone_map),
      λ k.
          lookup-insert name k v rest
          ∙ ap (λ o. if name == k then some v else o) (same k)
          ∙ sym (lookup-cons k name v m),
      AllComeBack-insert codec name v rest a.0 back,
    )

-- If the objects of the state come back unchanged from JSON, cloning succeeds, the clone shows what
-- the state shows, but for the service hashes, of which it has none, and its objects come back
-- unchanged too.
pub clone_state_lem :
    (codecs : Codecs) (s : State)
    → IsExportable codecs s
    → (c : State) × (clone_state codecs s ≡ ok c)
      × (observe c ≡ record (observe s) { service_hashes = λ name. none })
      × IsExportable codecs c
unfolding clone_state
clone_state_lem codecs s x =
    let (containers, e, same, a) = cloned codecs.containers s.containers x.of_containers in
    let (volumes, e', same', a') = cloned codecs.volumes s.volumes x.of_volumes in
    let (networks, e'', same'', a'') = cloned codecs.networks s.networks x.of_networks in
    (
      record new_state {
        containers = containers;
        volumes = volumes;
        networks = networks;
        available_subnets = s.available_subnets;
        used_subnets = copy s.used_subnets;
        network_indices = copy s.network_indices;
      },
      rw (e, e', e'', clone_state),
      λ i. record (observe s) {
        containers = λ name. same name i;
        volumes = λ name. same' name i;
        networks = λ name. same'' name i;
        used_subnets = λ name. lookup-copy name s.used_subnets i;
        network_indices = λ name. lookup-copy name s.network_indices i;
        service_hashes = λ name. lookup-empty name i;
      },
      record { of_containers = a; of_volumes = a'; of_networks = a'' },
    )

-- If the objects of the state come back unchanged from JSON, taking a snapshot succeeds; and as long
-- as the snapshot is kept under its name, a return to it succeeds from whatever state, brings back
-- what the state showed when the snapshot was taken, but for the service hashes, of which there are
-- none then, and keeps the snapshots.
pub revert_to_snapshot-take_snapshot :
    (codecs : Codecs) (name : Text) (m : DockerMockManager)
    → IsExportable codecs m.state
    → (taken : DockerMockManager) × (take_snapshot codecs name m ≡ ok taken)
      × ((later : DockerMockManager)
          → lookup name later.snapshots ≡ lookup name taken.snapshots
          → (reverted : DockerMockManager) × (revert_to_snapshot codecs name later ≡ ok reverted)
            × (observe reverted.state ≡ record (observe m.state) { service_hashes = λ n. none })
            × (reverted.snapshots ≡ later.snapshots))
unfolding take_snapshot revert_to_snapshot
revert_to_snapshot-take_snapshot codecs name m x =
    let (c, e, shows, x') = clone_state_lem codecs m.state x in
    let (d, f, shows', _) = clone_state_lem codecs c x' in
    (
      record m { snapshots = insert name c m.snapshots },
      rw (e, take_snapshot),
      λ later kept. (
        record later { state = d },
        rw (kept, lookup-insert name name c m.snapshots, ==-refl name, f, revert_to_snapshot),
        shows' ∙ ap (λ (o : Observed). record o { service_hashes = λ n. none }) shows,
        refl,
      ),
    )
