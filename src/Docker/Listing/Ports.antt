-- ===== src/Docker/Listing/Ports.antt =====
-- The host ports of the listings of docker/client.go, which are read as 16-bit signed numbers.
use osha.Base.{
  ℕ, ◌%◌, ◌≤◌, ◌<◌, ◌≡◌, ◌≢◌, refl, sym, subst, ◌⊎◌, inl, inr, true, List, [], ◌∷◌, ◌++◌, map, some,
  Text, text_eq, text_beq, Dict, lookup, Outcome, ok, fail, panic, ◌>>=◌, All, Any, arith,
  Bool-cases, Outcome-cases,
}
use osha.Go.Ints.{parse_int_0}
use osha.Go.Ints.Printed.{parse_int_0-format_uint}
use osha.Go.Strconv.{format_uint}
use osha.Docker.{State, DockerError}
use osha.Docker.Listing.{
  Views, Port, bindings_of, ports_of, convert_container_json_to_container, list_containers,
  disk_usage, container_list, parse_created, listing,
}
use osha.Docker.Objects.{Container, NetworkSettings, PortBinding, PortMap}

-- Host addresses and port numbers, by container port.
abbrev pub Published : Type 0
Published = Dict Text (List (Text × ℕ))

abbrev pub printed_binding : Text × ℕ → PortBinding
printed_binding (ip, n) = record { host_ip = ip; host_port = format_uint n }

-- The port map that has these ports in decimal.
abbrev pub printed_ports : Published → PortMap
printed_ports [] = []
printed_ports ((port, xs) ∷ m) = (port, map printed_binding xs) ∷ printed_ports m

abbrev IsSmall : Text × ℕ → Type 0
IsSmall (ip, n) = n < 32768

module _ {Time : Type 0} (views : Views Time) where
  abbrev pub listed_port : Text → Text × ℕ → Port
  listed_port port (ip, n) = record {
    ip = ip;
    private_port = views.port_int port % 65536;
    public_port = n;
    type = views.port_proto port;
  }

  abbrev pub listed_ports : Published → List Port
  listed_ports [] = []
  listed_ports ((port, xs) ∷ m) = map (listed_port port) xs ++ listed_ports m

  small : (n : ℕ) → n < 32768 → parse_int_0 16 (format_uint n) ≡ ok n
  small n lt = rw (parse_int_0-format_uint n (omega arith)) (ground arith)

  bindings_of-printed :
      (port : Text) (xs : List (Text × ℕ))
      → All IsSmall xs
      → bindings_of views port (map printed_binding xs) ≡ ok (map (listed_port port) xs)
  unfolding bindings_of
  bindings_of-printed port [] a = refl
  bindings_of-printed port ((ip, n) ∷ xs) a =
      let e : n % 65536 ≡ n = omega (arith, a.0) in
      rw (small n a.0, bindings_of-printed port xs a.1, bindings_of, e)

  -- Host ports under 2^15, in decimal, are listed with their numbers, one entry for each binding.
  pub ports_of-printed :
      (m : Published)
      → All (λ entry. All IsSmall entry.1) m
      → ports_of views (printed_ports m) ≡ ok (listed_ports m)
  unfolding ports_of
  ports_of-printed [] a = refl
  ports_of-printed ((port, xs) ∷ m) a =
      rw (bindings_of-printed port xs a.0, ports_of-printed m a.1, ports_of)

-- No value.
abbrev pub IsRefused : {A : Type 0} → Outcome DockerError A → Type 0
IsRefused {A} r = (a : A) → r ≢ ok a

module _ {A B : Type 0} where
  IsRefused-first :
      (r : Outcome DockerError A) (f : A → Outcome DockerError B)
      → IsRefused r
      → IsRefused (r >>= f)
  IsRefused-first (ok a) f h b e = h a refl
  IsRefused-first (fail x) f h b e = cc
  IsRefused-first panic f h b e = cc

  IsRefused-then :
      (r : Outcome DockerError A) (f : A → Outcome DockerError B)
      → ((a : A) → IsRefused (f a))
      → IsRefused (r >>= f)
  IsRefused-then (ok a) f h b e = h a b e
  IsRefused-then (fail x) f h b e = cc
  IsRefused-then panic f h b e = cc

abbrev IsUnreadable : PortBinding → Type 0
IsUnreadable b = (n : ℕ) → parse_int_0 16 b.host_port ≢ ok n

-- A port that is not published, or one from 2^15 on.
abbrev pub IsUnlistable : PortBinding → Type 0
IsUnlistable b =
    (b.host_port ≡ []) ⊎ ((n : ℕ) × (32768 ≤ n) × (n < 65536) × (b.host_port ≡ format_uint n))

not_read : (b : PortBinding) → IsUnlistable b → IsUnreadable b
unfolding parse_int_0
not_read b (inl e) n = rw e (λ f. cc)
not_read b (inr (m, le, lt, e)) n = rw (e, parse_int_0-format_uint m lt) (ground arith)

module _ {Time : Type 0} (views : Views Time) where
  bindings_of-IsRefused :
      (port : Text) (bs : List PortBinding)
      → Any IsUnlistable bs
      → IsRefused (bindings_of views port bs)
  unfolding bindings_of
  bindings_of-IsRefused port [] a = absurd a
  bindings_of-IsRefused port (b ∷ bs) (inl u) = elim (Outcome-cases (parse_int_0 16 b.host_port)) [
    | inl (n, e) ↦ absurd (not_read b u n e)
    | inr (inl (x, e)) ↦ rw (e, bindings_of) (λ ports f. cc)
    | inr (inr e) ↦ rw (e, bindings_of) (λ ports f. cc)
  ]
  bindings_of-IsRefused port (b ∷ bs) (inr a) = elim (Outcome-cases (parse_int_0 16 b.host_port)) [
    | inl (n, e) ↦
        rw (e, bindings_of)
          (IsRefused-first (bindings_of views port bs) _ (bindings_of-IsRefused port bs a))
    | inr (inl (x, e)) ↦ rw (e, bindings_of) (λ ports f. cc)
    | inr (inr e) ↦ rw (e, bindings_of) (λ ports f. cc)
  ]

  ports_of-IsRefused :
      (port : Text) (bs : List PortBinding) (m : PortMap)
      → lookup port m ≡ some bs
      → Any IsUnlistable bs
      → IsRefused (ports_of views m)
  unfolding ports_of lookup
  ports_of-IsRefused port bs [] e a = absurd (cc)
  ports_of-IsRefused port bs ((other, cs) ∷ m) e a = elim (Bool-cases (text_beq other port)) [
    | inl hit ↦
        let here : cs ≡ bs = ground (arith, e) in
        IsRefused-first (bindings_of views other cs) _
          (bindings_of-IsRefused other cs (subst (Any IsUnlistable) (sym here) a))
    | inr miss ↦ IsRefused-then (bindings_of views other cs) _ λ first.
        IsRefused-first (ports_of views m) _ (ports_of-IsRefused port bs m (ground (arith, e)) a)
  ]

  convert-IsRefused :
      (c : Container) (settings : NetworkSettings)
      → c.network_settings ≡ some settings
      → IsRefused (ports_of views settings.ports)
      → IsRefused (convert_container_json_to_container views c)
  unfolding convert_container_json_to_container
  convert-IsRefused c settings e r =
      IsRefused-then (parse_created views c.created) _
        λ created. rw e (IsRefused-first (ports_of views settings.ports) _ r)

  list_containers-IsRefused :
      (name : Text) (c : Container) (m : Dict Text Container)
      → lookup name m ≡ some c
      → IsRefused (convert_container_json_to_container views c)
      → IsRefused (list_containers views true m)
  unfolding list_containers lookup
  list_containers-IsRefused name c [] e r = absurd (cc)
  list_containers-IsRefused name c ((other, d) ∷ m) e r = elim (Bool-cases (text_beq other name)) [
    | inl hit ↦
        let here : d ≡ c = ground (arith, e) in
        rw here
          (IsRefused-first _ _ (IsRefused-first (convert_container_json_to_container views c) _ r))
    | inr miss ↦ IsRefused-then (listing views true d) _ λ first.
        IsRefused-first (list_containers views true m) _
          (list_containers-IsRefused name c m (ground (arith, e)) r)
  ]

  -- As long as there is a container, running or not, one of whose ports is not published or is
  -- published at a port from 2^15 to 2^16 - 1, neither a list of all containers nor the disk usage is
  -- given.
  pub disk_usage-unlistable :
      (name port : Text) (c : Container) (settings : NetworkSettings) (bs : List PortBinding)
      (s : State)
      → lookup name s.containers ≡ some c
      → c.network_settings ≡ some settings
      → lookup port settings.ports ≡ some bs
      → Any IsUnlistable bs
      → IsRefused (disk_usage views s) × IsRefused (container_list views true s)
  unfolding disk_usage container_list
  disk_usage-unlistable name port c settings bs s e f g a =
      let r =
        list_containers-IsRefused name c s.containers e
          (convert-IsRefused c settings f (ports_of-IsRefused port bs settings.ports g a)) in
      (IsRefused-first (list_containers views true s.containers) _ r, r)
