-- ===== src/Docker/Compose/Again.antt =====
-- A further `Up` of docker/compose.go on a service that an `Up` has generated.
use osha.Base.{Bool, true, false, none, some, Text, text_eq, lookup}
use osha.Docker.{State}
use osha.Docker.Generation.World.{World}

abbrev pub has_container : Text → State → Bool
has_container name s = elim (lookup name s.containers) [ none ↦ false | some _ ↦ true ]
