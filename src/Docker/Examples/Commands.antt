-- ===== src/Docker/Examples/Commands.antt =====
-- Commands of docker/compose.go on the small project.
use osha.Base.{insert, text_beq, ◌≡◌, refl, [], ◌∷◌, text_eq, bytes, lookup, keys, ok}
use osha.Go.Slices.{sort}
use osha.Docker.{new_state}
use osha.Docker.Compose.{up}
use osha.Docker.Examples.Projects.{packages, sources, tools}
use osha.Docker.Generation.World.{World}

abbrev fresh : World
fresh = record { state = new_state; draws = 0; ticks = 0 }

abbrev upped : World
upped = (up packages sources tools (bytes "p") [] fresh).1

test_up : (up packages sources tools (bytes "p") [] fresh).0 ≡ ok tt
unfolding up sort lookup new_state insert text_beq
test_up = refl

test_name : keys upped.state.containers ≡ bytes "box" ∷ []
unfolding up sort lookup new_state insert text_beq keys
test_name = refl
