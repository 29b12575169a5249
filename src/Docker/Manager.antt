-- ===== src/Docker/Manager.antt =====
-- docker/manager.go: the snapshots of the Docker mock. The embedded client interface and the logger
-- are not modelled.
use osha.Base.{[], none, some, Text, text_eq, Dict, lookup, insert, Outcome, ok, fail, ◌>>=◌}
use osha.Docker.{Codecs, State, DockerError, no_such_snapshot, new_state, clone_state}

pub record DockerMockManager : Type 0 where
  pub state : State
  pub snapshots : Dict Text State

unfoldable pub new_docker_mock_manager : DockerMockManager
unfolding new_state
new_docker_mock_manager = record { state = new_state; snapshots = [] }

unfoldable pub take_snapshot :
    Codecs → Text → DockerMockManager → Outcome DockerError DockerMockManager
take_snapshot codecs name m = do
  clone ← clone_state codecs m.state
  ok (record m { snapshots = insert name clone m.snapshots })

unfoldable pub revert_to_snapshot :
    Codecs → Text → DockerMockManager → Outcome DockerError DockerMockManager
revert_to_snapshot codecs name m = elim (lookup name m.snapshots) [
  | none ↦ fail (no_such_snapshot name)
  | some snapshot ↦ do state ← clone_state codecs snapshot; ok (record m { state = state })
]
