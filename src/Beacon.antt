-- ===== src/Beacon.antt =====
-- beacon/: the mock of a Beacon node.
pub mod External
pub mod Validator
pub mod Deposit
pub mod Heap
pub mod Database
pub mod Config
pub mod Manager
pub mod Format
pub mod Provider
pub mod Server
pub mod Session
pub mod Examples
