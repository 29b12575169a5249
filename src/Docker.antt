-- ===== src/Docker.antt =====
-- docker/state.go: the state of the Docker mock, and its clones.
pub mod Objects
pub mod Compose
pub mod Client
pub mod Listing
pub mod Generation
pub mod Manager
pub mod Cloning
pub mod Subnets
pub mod Calls
pub mod Networks
pub mod Examples
use osha.Base.{
  ℕ, Bool, [], ◌∷◌, List, Option, none, some, Text, text_eq, Dict, insert, copy, Outcome, ok, fail,
  ◌>>=◌,
}
use osha.Docker.Objects.{Container, Volume, Network}

pub record State : Type 0 where
  pub containers : Dict Text Container
  pub volumes : Dict Text Volume
  pub networks : Dict Text Network
  pub available_subnets : List ℕ
  pub used_subnets : Dict Text ℕ
  pub network_indices : Dict Text ℕ
  pub service_hashes : Dict Text Text

pub data DockerError : Type 0 where
  no_such_container no_such_network no_such_volume : Text → DockerError
  network_in_use container_exists volume_exists : Text → DockerError
  bad_time cannot_marshal cannot_unmarshal no_such_snapshot : Text → DockerError
  unsupported_mount bad_port bad_host_port no_project no_model : Text → DockerError
  too_many_networks : DockerError

unfoldable pub new_state : State
new_state = record {
  containers = [];
  volumes = [];
  networks = [];
  available_subnets = 17 ∷ 18 ∷ 19 ∷ 20 ∷ 21 ∷ 22 ∷ 23 ∷ 24 ∷ 25 ∷ 26 ∷ 27 ∷ 28 ∷ 29 ∷ 30 ∷ 31 ∷ [];
  used_subnets = [];
  network_indices = [];
  service_hashes = [];
}

-- json.Marshal and json.Unmarshal at one type.
pub record Codec (V : Type 0) : Type 0 where
  pub marshal : V → Option Text
  pub unmarshal : Text → Option V

pub record Codecs : Type 0 where
  pub containers : Codec Container
  pub volumes : Codec Volume
  pub networks : Codec Network

-- One round of a loop of `Clone`: the object of this name goes through JSON.
unfoldable pub through : {V : Type 0} → Codec V → Text → V → Outcome DockerError V
through codec name v = elim (codec.marshal v) [
  | none ↦ fail (cannot_marshal name)
  | some text ↦ elim (codec.unmarshal text) [ none ↦ fail (cannot_unmarshal name) | some w ↦ ok w ]
]

-- One of the loops. Go leaves the order open; this one meets the errors from the front of the list.
unfoldable pub clone_map : {V : Type 0} → Codec V → Dict Text V → Outcome DockerError (Dict Text V)
unfolding through
clone_map codec [] = ok []
clone_map codec ((name, v) ∷ m) = do
  w ← through codec name v
  rest ← clone_map codec m
  ok (insert name w rest)

unfoldable pub clone_state : Codecs → State → Outcome DockerError State
unfolding clone_map new_state
clone_state codecs s = do
  containers ← clone_map codecs.containers s.containers
  volumes ← clone_map codecs.volumes s.volumes
  networks ← clone_map codecs.networks s.networks
  ok (record new_state {
    containers = containers;
    volumes = volumes;
    networks = networks;
    available_subnets = s.available_subnets;
    used_subnets = copy s.used_subnets;
    network_indices = copy s.network_indices;
  })
