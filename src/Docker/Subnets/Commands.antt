-- ===== src/Docker/Subnets/Commands.antt =====
-- The pool of subnets of docker/ through the commands of docker/compose.go, as far as they get.
use osha.Base.{
  inl, inr, true, false, List, [], ◌∷◌, Text, text_eq, Dict, lookup, insert, Bool-cases,
  Option-cases,
}
use osha.Go.Slices.{sort}
use osha.Docker.{State}
use osha.Docker.Client.{
  container_start, container_stop, container_remove, volume_remove, network_remove,
}
use osha.Docker.Compose.{
  Tools, names_of, load_compose_project, make_network, make_networks, make_volumes, start,
  stop_service, regenerate, is_unchanged, up_service, up_services, up_project, up, stop_services,
  stop, remove_services, remove_volumes, remove_networks, down_project, down,
}
use osha.Docker.Compose.Types.{NetworkConfig, VolumeConfig, ServiceConfig, Project}
use osha.Docker.Generation.{generate_volume}
use osha.Docker.Generation.Services.{project_network, generate_service}
use osha.Docker.Generation.Settings.{Packages}
use osha.Docker.Generation.World.{
  Sources, Action, lift, update, modify, ◌>>=◌, ◌>>◌, create_random_id, time_now,
}
use osha.Docker.Subnets.{IsPool, network_remove-IsPool, generate_network-IsPool}
use osha.Docker.Subnets.Steps.{
  alike, container_remove-IsPool, with_engine-IsPool, volume_remove-IsPool,
}
use osha.Docker.Subnets.Services.{
  KeepsPool, bind-KeepsPool, update-KeepsPool, generate_service-KeepsPool,
}

module _ {Time : Type 0} (packages : Packages Time) (sources : Sources Time) where
  make_networks-KeepsPool :
      (networks : Dict Text NetworkConfig) (project_name : Text) (names : List Text)
      → KeepsPool (make_networks packages sources networks project_name names)
  unfolding make_networks make_network time_now create_random_id
  make_networks-KeepsPool networks project_name [] = λ w v. v
  make_networks-KeepsPool networks project_name (name ∷ names) =
      bind-KeepsPool
        (make_network packages sources (project_network networks name) name project_name)
        (λ _. make_networks packages sources networks project_name names)
        (λ w v.
          update-KeepsPool _
            (generate_network-IsPool (project_network networks name) name project_name _ _) _ v)
        (λ _. make_networks-KeepsPool networks project_name names)

  generate_volume-IsPool :
      (volume : VolumeConfig) (name_in_yaml project_name now : Text) (s : State)
      → IsPool s
      → IsPool (generate_volume volume name_in_yaml project_name now s)
  unfolding generate_volume
  generate_volume-IsPool volume name_in_yaml project_name now s v =
      elim (Option-cases (lookup volume.name s.volumes)) [
        | inl e ↦
            rw (e, generate_volume) (alike s s.containers _ s.network_indices s.service_hashes v)
        | inr (o, e) ↦
            rw (e, generate_volume) (alike s s.containers _ s.network_indices s.service_hashes v)
      ]

  make_volumes-KeepsPool :
      (project_name : Text) (volumes : Dict Text VolumeConfig)
      → KeepsPool (make_volumes packages sources project_name volumes)
  unfolding make_volumes time_now
  make_volumes-KeepsPool project_name [] w v = v
  make_volumes-KeepsPool project_name ((name_in_yaml, volume) ∷ m) w v =
      make_volumes-KeepsPool project_name m _
        (generate_volume-IsPool volume name_in_yaml project_name _ w.state v)

  pub start-KeepsPool : (name : Text) → KeepsPool (start packages sources name)
  unfolding start time_now container_start
  start-KeepsPool name w v = update-KeepsPool _ (with_engine-IsPool packages.engine _ name) _ v

  regenerate-KeepsPool :
      (service : ServiceConfig) (hash : Text) (networks : Dict Text NetworkConfig)
      (volumes : Dict Text VolumeConfig)
      → KeepsPool (regenerate packages sources service hash networks volumes)
  unfolding regenerate
  regenerate-KeepsPool service hash networks volumes =
      bind-KeepsPool (generate_service packages sources service networks volumes)
        (λ _. modify (λ s. record s { service_hashes = insert service.name hash s.service_hashes }))
        (generate_service-KeepsPool packages sources service networks volumes)
        (λ _ w v. alike w.state w.state.containers w.state.volumes w.state.network_indices _ v)

module _ {Time Options Model : Type 0} (packages : Packages Time) (sources : Sources Time)
    (tools : Tools Options Model) where
  up_service-KeepsPool :
      (service : ServiceConfig) (networks : Dict Text NetworkConfig)
      (volumes : Dict Text VolumeConfig)
      → KeepsPool (up_service packages sources tools service networks volumes)
  unfolding up_service
  up_service-KeepsPool service networks volumes w v = elim (Option-cases (tools.yaml service)) [
    | inl e ↦ rw (e, up_service) v
    | inr (text, e) ↦
        let hash = tools.sha256 text in
        elim (Bool-cases (is_unchanged service hash w.state)) [
          | inl f ↦ rw (e, f, up_service) (start-KeepsPool packages sources service.name w v)
          | inr f ↦
              rw (e, f, up_service)
                (regenerate-KeepsPool packages sources service hash networks volumes w v)
        ]
  ]

  up_services-KeepsPool :
      (networks : Dict Text NetworkConfig) (volumes : Dict Text VolumeConfig)
      (m : Dict Text ServiceConfig)
      → KeepsPool (up_services packages sources tools networks volumes m)
  unfolding up_services
  up_services-KeepsPool networks volumes [] = λ w v. v
  up_services-KeepsPool networks volumes ((name, service) ∷ m) =
      bind-KeepsPool (up_service packages sources tools service networks volumes)
        (λ _. up_services packages sources tools networks volumes m)
        (up_service-KeepsPool service networks volumes)
        (λ _. up_services-KeepsPool networks volumes m)

  up_project-KeepsPool :
      (project_name : Text) (project : Project)
      → KeepsPool (up_project packages sources tools project_name project)
  unfolding up_project
  up_project-KeepsPool project_name project =
      let external = sort (names_of true project.networks) in
      let own = sort (names_of false project.networks) in
      let of_volumes = make_volumes packages sources project_name project.volumes in
      let of_services =
        up_services packages sources tools project.networks project.volumes project.services in
      let networks = make_networks packages sources project.networks project_name in
      bind-KeepsPool (networks external) (λ _. networks own >> (of_volumes >> of_services))
        (make_networks-KeepsPool packages sources project.networks project_name external)
        (λ _.
          bind-KeepsPool (networks own) (λ _. of_volumes >> of_services)
            (make_networks-KeepsPool packages sources project.networks project_name own)
            (λ _.
              bind-KeepsPool of_volumes (λ _. of_services)
                (make_volumes-KeepsPool packages sources project_name project.volumes)
                (λ _. up_services-KeepsPool project.networks project.volumes project.services)))

  -- A command on a project that is loaded, if it is.
  loaded-KeepsPool :
      (name : Text) (files : List Text) (f : Project → Action (Unit {0}))
      → ((project : Project) → KeepsPool (f project))
      → KeepsPool (lift (load_compose_project tools name files) >>= f)
  loaded-KeepsPool name files f k =
      bind-KeepsPool (lift (load_compose_project tools name files)) f (λ w v. v) k

  pub up-KeepsPool :
      (name : Text) (files : List Text) → KeepsPool (up packages sources tools name files)
  unfolding up
  up-KeepsPool name files =
      loaded-KeepsPool name files (up_project packages sources tools name)
        (up_project-KeepsPool name)

  stop_services-KeepsPool :
      (m : Dict Text ServiceConfig) → KeepsPool (stop_services packages sources tools m)
  unfolding stop_services stop_service time_now container_stop
  stop_services-KeepsPool [] = λ w v. v
  stop_services-KeepsPool ((name, service) ∷ m) =
      bind-KeepsPool (stop_service packages sources service)
        (λ _. stop_services packages sources tools m)
        (λ w v.
          update-KeepsPool _ (with_engine-IsPool packages.engine _ service.container_name) _ v)
        (λ _. stop_services-KeepsPool m)

  pub stop-KeepsPool :
      (name : Text) (files : List Text) → KeepsPool (stop packages sources tools name files)
  unfolding stop
  stop-KeepsPool name files =
      loaded-KeepsPool name files (λ project. stop_services packages sources tools project.services)
        (λ project. stop_services-KeepsPool project.services)

  remove_services-KeepsPool : (m : Dict Text ServiceConfig) → KeepsPool (remove_services m)
  unfolding remove_services
  remove_services-KeepsPool [] = λ w v. v
  remove_services-KeepsPool ((name, service) ∷ m) =
      bind-KeepsPool (update (container_remove service.container_name)) (λ _. remove_services m)
        (update-KeepsPool _ (container_remove-IsPool service.container_name))
        (λ _. remove_services-KeepsPool m)

  remove_volumes-KeepsPool : (m : Dict Text VolumeConfig) → KeepsPool (remove_volumes m)
  unfolding remove_volumes
  remove_volumes-KeepsPool [] = λ w v. v
  remove_volumes-KeepsPool ((name, volume) ∷ m) =
      bind-KeepsPool (update (volume_remove volume.name)) (λ _. remove_volumes m)
        (update-KeepsPool _ (volume_remove-IsPool volume.name)) (λ _. remove_volumes-KeepsPool m)

  remove_networks-KeepsPool : (m : Dict Text NetworkConfig) → KeepsPool (remove_networks m)
  unfolding remove_networks
  remove_networks-KeepsPool [] = λ w v. v
  remove_networks-KeepsPool ((name, network) ∷ m) =
      bind-KeepsPool (update (network_remove network.name)) (λ _. remove_networks m)
        (update-KeepsPool _ (network_remove-IsPool network.name)) (λ _. remove_networks-KeepsPool m)

  pub down-KeepsPool : (name : Text) (files : List Text) → KeepsPool (down tools name files)
  unfolding down down_project
  down-KeepsPool name files = loaded-KeepsPool name files down_project λ project.
      bind-KeepsPool (remove_services project.services)
        (λ _. remove_volumes project.volumes >> remove_networks project.networks)
        (remove_services-KeepsPool project.services)
        (λ _.
          bind-KeepsPool (remove_volumes project.volumes) (λ _. remove_networks project.networks)
            (remove_volumes-KeepsPool project.volumes)
            (λ _. remove_networks-KeepsPool project.networks))
