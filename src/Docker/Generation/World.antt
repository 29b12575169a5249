-- ===== src/Docker/Generation/World.antt =====
-- What the calls of docker/ that run through several steps share: the state with a count of the
-- random draws and of the readings of the clock, and the calls as actions on it. The state comes back
-- with an error too, since what was written stays written.
use osha.Base.{ℕ, suc, Option, none, some, Text, Outcome, ok, fail, panic}
use osha.Go.Hex.{encode_to_string}
use osha.Docker.{State, DockerError}

pub record World : Type 0 where
  pub state : State
  pub draws : ℕ
  pub ticks : ℕ

-- The n-th result of `rand.Read` and the n-th of `time.Now`.
pub record Sources (Time : Type 0) : Type 0 where
  pub random : ℕ → Text
  pub now : ℕ → Time

abbrev pub Action : Type 0 → Type 0
Action A = World → Outcome DockerError A × World

module _ {A : Type 0} where
  abbrev pub pure : A → Action A
  pure a w = (ok a, w)

  -- A step that does not change the state.
  abbrev pub lift : Outcome DockerError A → Action A
  lift r w = (r, w)

  abbrev pub gets : (State → A) → Action A
  gets f w = (ok (f w.state), w)

  -- `*p`
  abbrev pub deref : Option A → Action A
  deref none w = (panic, w)
  deref (some a) w = (ok a, w)

infixl 5 ◌>>=◌ ◌>>◌
abbrev pub ◌>>=◌ : {A B : Type 0} → Action A → (A → Action B) → Action B
◌>>=◌ m f w =
    let (r, w') = m w in elim r [ ok a ↦ f a w' | fail e ↦ (fail e, w') | panic ↦ (panic, w') ]

abbrev pub ◌>>◌ : {B : Type 0} → Action (Unit {0}) → Action B → Action B
m >> k = m >>= λ _. k

abbrev pub modify : (State → State) → Action (Unit {0})
modify f w = (ok tt, record w { state = f w.state })

-- A call that changes nothing when it fails.
abbrev pub update : (State → Outcome DockerError State) → Action (Unit {0})
update f w = elim (f w.state) [
  | ok s ↦ (ok tt, record w { state = s })
  | fail e ↦ (fail e, w)
  | panic ↦ (panic, w)
]

module _ {Time : Type 0} (sources : Sources Time) where
  -- `createRandomID(32)`
  unfoldable pub create_random_id : Action Text
  create_random_id w =
      (ok (encode_to_string (sources.random w.draws)), record w { draws = suc w.draws })

  unfoldable pub time_now : Action Time
  time_now w = (ok (sources.now w.ticks), record w { ticks = suc w.ticks })
