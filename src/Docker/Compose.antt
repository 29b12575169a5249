-- ===== src/Docker/Compose.antt =====
-- docker/compose.go, with the formats of docker/types.go: the commands of Docker Compose on a project.
-- A command that fails in the middle leaves what it has done. An error is kept without the text that
-- its callers put in front of it. A draw or a reading of the clock that the source makes on one branch
-- only is made on the other as well, where nothing uses it.
pub mod Types
pub mod Again
use osha.Base.{
  ℕ, Bool, true, false, not, ◌&&◌, List, [], ◌∷◌, Option, none, some, Text, bytes, text_eq,
  text_beq, Dict, lookup, insert, Outcome, ok, fail, or_zero, if◌then◌else◌,
}
use osha.Go.Slices.{sort}
use osha.Docker.{State, DockerError, cannot_marshal, no_project, no_model}
use osha.Docker.Client.{
  container_start, container_stop, container_remove, volume_remove, network_remove,
}
use osha.Docker.Compose.Types.{NetworkConfig, VolumeConfig, ServiceConfig, Project}
use osha.Docker.Generation.{generate_network, generate_volume}
use osha.Docker.Generation.Services.{generate_service, project_network}
use osha.Docker.Generation.Settings.{Packages}
use osha.Docker.Generation.World.{
  World, Sources, Action, pure, lift, gets, update, modify, ◌>>=◌, ◌>>◌, create_random_id, time_now,
}

abbrev pub compose_format_json : Text
compose_format_json = bytes "json"

abbrev pub compose_format_yaml : Text
compose_format_yaml = bytes "yaml"

-- What is taken from compose-go's cli, with its options and models, from the encoders and from
-- crypto/sha256.
pub record Tools (Options Model : Type 0) : Type 0 where
  pub new_project_options : List Text → Text → Option Options
  pub load_project : Options → Option Project
  pub load_model : Options → Option Model
  pub json_indent : Model → Option Text
  pub yaml_indent : Model → Option Text
  pub yaml : ServiceConfig → Option Text
  pub sha256 : Text → Text

module _ {Options Model : Type 0} (tools : Tools Options Model) where
  unfoldable pub load_compose_project : Text → List Text → Outcome DockerError Project
  load_compose_project project_name files = elim (tools.new_project_options files project_name) [
    | none ↦ fail (no_project project_name)
    | some options ↦ elim (tools.load_project options) [
      | none ↦ fail (no_project project_name)
      | some project ↦ ok project
    ]
  ]

  -- `Config`; a format that is neither of the two gives the empty text.
  marshal_model : Text → Model → Option Text
  marshal_model format model =
      if text_beq format compose_format_json
      then tools.json_indent model
      else if text_beq format compose_format_yaml
      then tools.yaml_indent model
      else some []

  unfoldable pub compose_config : Text → List Text → Text → Outcome DockerError Text
  unfolding marshal_model
  compose_config project_name files format = elim (tools.new_project_options files project_name) [
    | none ↦ fail (no_project project_name)
    | some options ↦ elim (tools.load_model options) [
      | none ↦ fail (no_model project_name)
      | some model ↦ elim (marshal_model format model) [
        | none ↦ fail (cannot_marshal project_name)
        | some text ↦ ok text
      ]
    ]
  ]

-- The names in the YAML file of the networks that are external, or of those that are not.
unfoldable pub names_of : Bool → Dict Text NetworkConfig → List Text
names_of external [] = []
names_of external ((name, network) ∷ m) =
    let rest = names_of external m in
    let chosen = if external then network.external else not network.external in
    if chosen then name ∷ rest else rest

-- Whether the service was generated from the same YAML and a container has its name.
unfoldable pub is_unchanged : ServiceConfig → Text → State → Bool
is_unchanged service hash s = elim (lookup service.name s.service_hashes) [
  | none ↦ false
  | some existing ↦
      text_beq hash existing
      && elim (lookup service.name s.containers) [ none ↦ false | some _ ↦ true ]
]

module _ {Time : Type 0} (packages : Packages Time) (sources : Sources Time) where
  unfoldable pub make_network : NetworkConfig → Text → Text → Action (Unit {0})
  unfolding generate_network create_random_id time_now
  make_network network name_in_yaml project_name = do
    id ← create_random_id sources
    now ← time_now sources
    update (generate_network network name_in_yaml project_name id (packages.engine.format_time now))

  unfoldable pub make_networks : Dict Text NetworkConfig → Text → List Text → Action (Unit {0})
  unfolding make_network
  make_networks networks project_name [] = pure tt
  make_networks networks project_name (name ∷ names) =
      make_network (project_network networks name) name project_name
      >> make_networks networks project_name names

  unfoldable pub make_volumes : Text → Dict Text VolumeConfig → Action (Unit {0})
  unfolding generate_volume time_now
  make_volumes project_name [] = pure tt
  make_volumes project_name ((name_in_yaml, volume) ∷ m) = do
    now ← time_now sources
    modify (generate_volume volume name_in_yaml project_name (packages.engine.format_time now))
    make_volumes project_name m

  unfoldable pub start : Text → Action (Unit {0})
  unfolding time_now container_start
  start name = do now ← time_now sources; update (container_start packages.engine now name)

  unfoldable pub stop_service : ServiceConfig → Action (Unit {0})
  unfolding time_now container_stop
  stop_service service = do
    now ← time_now sources
    update (container_stop packages.engine now service.container_name)

  unfoldable pub regenerate :
      ServiceConfig → Text → Dict Text NetworkConfig → Dict Text VolumeConfig → Action (Unit {0})
  unfolding generate_service
  regenerate service hash networks volumes = do
    generate_service packages sources service networks volumes
    modify (λ s. record s { service_hashes = insert service.name hash s.service_hashes })

module _ {Time Options Model : Type 0} (packages : Packages Time) (sources : Sources Time)
    (tools : Tools Options Model) where
  -- One round of the loop over the services.
  unfoldable pub up_service :
      ServiceConfig → Dict Text NetworkConfig → Dict Text VolumeConfig → Action (Unit {0})
  unfolding start regenerate is_unchanged
  up_service service networks volumes w = elim (tools.yaml service) [
    | none ↦ (fail (cannot_marshal service.name), w)
    | some text ↦ elim (is_unchanged service (tools.sha256 text) w.state) [
      | true ↦ start packages sources service.name w
      | false ↦ regenerate packages sources service (tools.sha256 text) networks volumes w
    ]
  ]

  unfoldable pub up_services :
      Dict Text NetworkConfig → Dict Text VolumeConfig → Dict Text ServiceConfig → Action (Unit {0})
  unfolding up_service
  up_services networks volumes [] = pure tt
  up_services networks volumes ((_, service) ∷ m) =
      up_service service networks volumes >> up_services networks volumes m

  unfoldable pub up_project : Text → Project → Action (Unit {0})
  unfolding names_of make_networks make_volumes up_services
  up_project project_name project = do
    make_networks packages sources project.networks project_name
        (sort (names_of true project.networks))
    make_networks packages sources project.networks project_name
        (sort (names_of false project.networks))
    make_volumes packages sources project_name project.volumes
    up_services project.networks project.volumes project.services

  unfoldable pub up : Text → List Text → Action (Unit {0})
  unfolding load_compose_project up_project
  up project_name files = do
    project ← lift (load_compose_project tools project_name files)
    up_project project_name project

  unfoldable pub stop_services : Dict Text ServiceConfig → Action (Unit {0})
  unfolding stop_service
  stop_services [] = pure tt
  stop_services ((_, service) ∷ m) = stop_service packages sources service >> stop_services m

  unfoldable pub stop : Text → List Text → Action (Unit {0})
  unfolding load_compose_project stop_services
  stop project_name files = do
    project ← lift (load_compose_project tools project_name files)
    stop_services project.services

unfoldable pub remove_services : Dict Text ServiceConfig → Action (Unit {0})
unfolding container_remove
remove_services [] = pure tt
remove_services ((_, service) ∷ m) =
    update (container_remove service.container_name) >> remove_services m

unfoldable pub remove_volumes : Dict Text VolumeConfig → Action (Unit {0})
unfolding volume_remove
remove_volumes [] = pure tt
remove_volumes ((_, volume) ∷ m) = update (volume_remove volume.name) >> remove_volumes m

unfoldable pub remove_networks : Dict Text NetworkConfig → Action (Unit {0})
unfolding network_remove
remove_networks [] = pure tt
remove_networks ((_, network) ∷ m) = update (network_remove network.name) >> remove_networks m

unfoldable pub down_project : Project → Action (Unit {0})
unfolding remove_services remove_volumes remove_networks
down_project project = do
  remove_services project.services
  remove_volumes project.volumes
  remove_networks project.networks

module _ {Options Model : Type 0} (tools : Tools Options Model) where
  unfoldable pub down : Text → List Text → Action (Unit {0})
  unfolding load_compose_project down_project
  down project_name files = do
    project ← lift (load_compose_project tools project_name files)
    down_project project
