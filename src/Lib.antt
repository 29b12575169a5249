-- ===== src/Lib.antt =====
-- A model of osha, a set of mocks for testing Ethereum node software: the mock Beacon node of
-- beacon/, from its database to its HTTP handlers; the Docker mock of docker/ with its client calls
-- and the commands of Docker Compose; the folder of a test of filesystem/; the key generator of keys/;
-- and test-manager.go, which starts them, takes and reverts snapshots of all of them, and moves the
-- chain on.
--
-- The parts and how they interact. beacon/db keeps the validators, the pending deposits and the
-- slots of a chain (`Database`), hands out pointers to its validators, and has the configuration
-- (`Config`). beacon/manager wraps one database and keeps named snapshots of it, each a clone; it
-- finds validators by an index or a public key in text, and it provides the Beacon API to a client
-- in the same process. beacon/server answers HTTP requests by calls on the manager, or by writing
-- through the pointers that the manager returns. docker/ keeps containers, volumes and networks in
-- maps, gives each network a subnet from a pool and each container an address in it, and has
-- snapshots of its own; its compose commands generate, start, stop and remove what a project asks
-- for. filesystem/ has a folder for a test and one for its snapshots. keys/ stands alone: it derives
-- wallet and validator keys from a mnemonic and caches them by index. test-manager.go has one of each
-- mock, takes one snapshot of each under one name, with those of Hardhat and of the registered
-- modules, and keeps the mock Beacon chain in step with the execution chain of Hardhat.
--
-- The files.
-- Base and its children: the shared types. A Go call that can fail is an `Outcome`: a value, an
-- error or a panic. A map is an association list, a string is a list of bytes, and a uint64 is a
-- number whose wrap-around is written out at each operation (`add64`, `sub64`).
-- Go/Strconv, Go/Ints, Go/Strings, Go/Slices, Go/Hex and Go/Fmt: what the code uses of the packages
-- strconv, strings, slices, encoding/hex and fmt.
-- Beacon/External: what the code takes from node-manager-core and go-ethereum, as a record that the
-- definitions take as an argument.
-- Beacon/Validator: beacon/db/validator.go and settings.go. Beacon/Deposit: beacon/db/deposit.go.
-- Beacon/Format: the conversions to the types of the Beacon API.
-- Beacon/Heap: the objects that pointers lead to. A pointer is a number, so that two names for one
-- object are two equal numbers.
-- Beacon/Database: beacon/db/database.go, one definition for each method (`add_validator` is
-- `AddValidator`, and so on); Database/View has the abstract contents and the well-formedness.
-- Beacon/Config: beacon/db/config.go. Beacon/Manager: beacon/manager/manager.go.
-- Beacon/Provider: beacon/manager/beacon-interface.go.
-- Beacon/Server: beacon/server/response-handling.go; Server/Handlers has the handlers, one for each
-- file of beacon/server (`slash_handler` is `slash` of slash.go); Server/Routes has the routes.
-- Beacon/Session: what can happen to a node, as a sequence of events; Session/Steps has the steps
-- that the events come down to, and Session/Reachable adds other databases and writes through pointers.
-- Beacon/Examples: a small node on which the theorems and tests are run.
-- Docker: docker/state.go; Docker/Objects: the types of Docker's API; Docker/Client: docker/client.go,
-- whose listings are in Docker/Listing; Docker/Generation: the networks and the volumes of
-- docker/generation.go; Docker/Generation/Services: `generateService`, with its mounts, ports and
-- environment in Generation/Bindings, the fields that are copied in Generation/Settings, and the state,
-- the random draws and the clock of a call in Generation/World; Docker/Compose: docker/compose.go;
-- Docker/Manager: docker/manager.go; Docker/Calls: sequences of calls and
-- snapshots; Docker/Examples: a small state
-- and a small project. Containers, volumes and networks are kept by value there. The n-th random draw
-- and the n-th reading of the clock are functions of n.
-- Filesystem: filesystem/manager.go, on trees of files; Filesystem/Directory: its `copyDirectory`.
-- Keys: keys/keygen.go and settings.go; Keys/Queries has sequences of calls, Keys/Examples a toy
-- derivation.
-- TestManager: the chain modifications of test-manager.go; TestManager/Snapshots: its snapshots, with
-- snapshot.go and module.go; TestManager/Startup: `NewTestManager`.
--
-- Loops are recursion on the list that they go through, `copyDirectory` on the tree. Go leaves the order
-- of a map open: the model goes through the list that stands for the map. New names for snapshots are
-- drawn from a list of identifiers, and it is an error there if none of them is new. `trim_space` and `format_uint` take fuel:
-- the length of the text, of which each round takes a byte or more, and 20, the number of digits
-- of the largest uint64. `get_derived_key` takes the number of indices that it may try, since
-- nothing in the source bounds them: one more than the number of indices that are passed over is
-- enough.
--
-- Not modelled: logging; net/http and gorilla/mux, so that a request arrives with its query, path
-- variables and body taken apart and with its route chosen; JSON, YAML and hashes, the texts of times,
-- the run states of Docker's engine, compose-go and the clients of go-ethereum, which are arguments of
-- the definitions that use them; fields of Docker's objects that the code never sets; links in the place
-- of a file that is copied to; handlers that run at the same time, which the model runs one after the
-- other; modules that change the mocks; beacon/osha-bn.go, with the listening of
-- beacon/server/server.go; the fixtures for tests; and the service flags of types.go.
pub mod Base
pub mod Go
pub mod Beacon
pub mod Docker
pub mod Filesystem
pub mod Keys
pub mod TestManager
