-- ===== src/Docker/Subnets/Steps.antt =====
-- The pool of subnets of docker/ through the single calls of the API and of the mock's administration.
use osha.Base.{
  ℕ, ◌≡◌, inl, inr, List, [], ◌∷◌, none, Text, text_eq, Dict, lookup, keys, Option-cases,
}
use osha.Docker.{State}
use osha.Docker.Client.{
  Engine, EngineState, find_container, disconnect, container_remove, change_state, with_engine,
  volume_remove, mock_add_container, mock_add_volume, written, mock_set_container_disk_usage,
  mock_set_volume_disk_usage,
}
use osha.Docker.Objects.{Container, Volume, Network}
use osha.Docker.Subnets.{IsPool, OnOk, OnOk-bind, not_inserted}

-- A state with the same networks and subnets.
pub alike :
    (s : State) (containers : Dict Text Container) (volumes : Dict Text Volume)
    (indices : Dict Text ℕ) (hashes : Dict Text Text)
    → IsPool s
    → IsPool (record s {
      containers = containers;
      volumes = volumes;
      network_indices = indices;
      service_hashes = hashes;
    })
alike s containers volumes indices hashes v = record {
  each = v.each;
  unique = v.unique;
  owned = v.owned;
}

-- A state with other networks under the same names.
pub renewed :
    (s : State) (containers : Dict Text Container) (networks : Dict Text Network)
    → ((name : Text) → lookup name networks ≡ none → lookup name s.networks ≡ none)
    → IsPool s
    → IsPool (record s { containers = containers; networks = networks })
renewed s containers networks names v = record {
  each = v.each;
  unique = v.unique;
  owned = λ name e. v.owned name (names name e);
}

disconnect-lookup :
    (id : Text) (names : List Text) (networks : Dict Text Network) (name : Text)
    → lookup name (disconnect id names networks) ≡ none
    → lookup name networks ≡ none
unfolding disconnect
disconnect-lookup id [] networks name = λ e. e
disconnect-lookup id (other ∷ names) networks name = elim (Option-cases (lookup other networks)) [
  | inl f ↦ rw (f, disconnect) (λ e. disconnect-lookup id names networks name e)
  | inr (n, f) ↦
      rw (f, disconnect)
        (λ e. (not_inserted other name _ networks (disconnect-lookup id names _ name e)).1)
]

pub container_remove-IsPool :
    (name : Text) (s : State) → IsPool s → OnOk IsPool (container_remove name s)
unfolding container_remove
container_remove-IsPool name s v = OnOk-bind IsPool (find_container name s) _ λ c.
    elim (Option-cases c.network_settings) [
      | inl e ↦ rw e (alike s _ s.volumes s.network_indices s.service_hashes v)
      | inr (settings, e) ↦
          rw e (renewed s _ _ (disconnect-lookup c.id (keys settings.networks) s.networks) v)
    ]

pub with_engine-IsPool :
    {Time : Type 0} (engine : Engine Time) (f : EngineState Time → EngineState Time) (name : Text)
    (s : State)
    → IsPool s
    → OnOk IsPool (with_engine engine f name s)
unfolding with_engine
with_engine-IsPool engine f name s v = OnOk-bind IsPool (find_container name s) _ λ c.
    OnOk-bind IsPool (change_state engine f c) _
      λ changed. alike s _ s.volumes s.network_indices s.service_hashes v

pub volume_remove-IsPool : (name : Text) (s : State) → IsPool s → OnOk IsPool (volume_remove name s)
unfolding volume_remove
volume_remove-IsPool name s v = elim (Option-cases (lookup name s.volumes)) [
  | inl e ↦ rw (e, volume_remove) tt
  | inr (w, e) ↦ rw (e, volume_remove) (alike s s.containers _ s.network_indices s.service_hashes v)
]

pub mock_add_container-IsPool :
    (info : Container) (s : State) → IsPool s → OnOk IsPool (mock_add_container info s)
unfolding mock_add_container
mock_add_container-IsPool info s v = elim (Option-cases (lookup info.name s.containers)) [
  | inl e ↦ rw (e, mock_add_container) (alike s _ s.volumes s.network_indices s.service_hashes v)
  | inr (w, e) ↦ rw (e, mock_add_container) tt
]

pub mock_add_volume-IsPool :
    (volume : Volume) (s : State) → IsPool s → OnOk IsPool (mock_add_volume volume s)
unfolding mock_add_volume
mock_add_volume-IsPool volume s v = elim (Option-cases (lookup volume.name s.volumes)) [
  | inl e ↦ rw (e, mock_add_volume) (alike s s.containers _ s.network_indices s.service_hashes v)
  | inr (w, e) ↦ rw (e, mock_add_volume) tt
]

pub set_container_usage-IsPool :
    (name : Text) (root rw_size : ℕ) (s : State)
    → IsPool s
    → OnOk IsPool (mock_set_container_disk_usage name root rw_size s)
unfolding mock_set_container_disk_usage
set_container_usage-IsPool name root rw_size s v = OnOk-bind IsPool (find_container name s) _ λ c.
    OnOk-bind IsPool (written root c.size_root_fs) _ λ r.
      OnOk-bind IsPool (written rw_size c.size_rw) _
        λ w. alike s _ s.volumes s.network_indices s.service_hashes v

pub set_volume_usage-IsPool :
    (name : Text) (size : ℕ) (s : State)
    → IsPool s
    → OnOk IsPool (mock_set_volume_disk_usage name size s)
unfolding mock_set_volume_disk_usage
set_volume_usage-IsPool name size s v = elim (Option-cases (lookup name s.volumes)) [
  | inl e ↦ rw (e, mock_set_volume_disk_usage) tt
  | inr (w, e) ↦
      rw (e, mock_set_volume_disk_usage)
        (OnOk-bind IsPool (written size w.usage_size) _
          λ r. alike s s.containers _ s.network_indices s.service_hashes v)
]
