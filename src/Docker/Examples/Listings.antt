-- ===== src/Docker/Examples/Listings.antt =====
-- The listings of docker/client.go at a container whose port is not published.
use osha.Base.{
  ◌≡◌, refl, text_beq, inl, inr, true, List, [], ◌∷◌, some, Text, bytes, text_eq, lookup, ok, arith,
}
use osha.Docker.{State}
use osha.Docker.Examples.{container}
use osha.Docker.Examples.Projects.{engine}
use osha.Docker.Listing.{Views, ports_of, disk_usage, container_list}
use osha.Docker.Listing.Ports.{
  Published, printed_ports, listed_ports, ports_of-printed, IsRefused, disk_usage-unlistable,
}
use osha.Docker.Objects.{NetworkSettings, PortBinding}

abbrev views : Views Text
views = record {
  engine = engine;
  state_name = λ _. bytes "running";
  port_int = λ _. 80;
  port_proto = λ _. bytes "tcp";
  unix = λ _. 0;
}

abbrev published : Published
published = (bytes "80/tcp", (bytes "", 8080) ∷ (bytes "127.0.0.1", 32767) ∷ []) ∷ []

ports_of-printed_example :
    ports_of views (printed_ports published) ≡ ok (listed_ports views published)
ports_of-printed_example = ports_of-printed views published ((omega arith, (omega arith, tt)), tt)

abbrev bindings : List PortBinding
bindings =
    (record { host_ip = []; host_port = bytes "8080" })
    ∷ (record { host_ip = []; host_port = [] })
    ∷ []

abbrev settings : NetworkSettings
settings = record {
  sandbox_id = [];
  sandbox_key = [];
  ports = (bytes "80/tcp", bindings) ∷ [];
  networks = [];
}

abbrev state : State
state = record {
  containers = (bytes "node", record container { network_settings = some settings }) ∷ [];
  volumes = [];
  networks = [];
  available_subnets = [];
  used_subnets = [];
  network_indices = [];
  service_hashes = [];
}

disk_usage-unlistable_example :
    IsRefused (disk_usage views state) × IsRefused (container_list views true state)
unfolding lookup text_beq
disk_usage-unlistable_example =
    disk_usage-unlistable views (bytes "node") (bytes "80/tcp")
      (record container { network_settings = some settings }) settings bindings state refl refl refl
      (inr (inl (inl refl)))
