-- ===== src/Local.antt =====
-- local/: the network of luxd processes on this machine.
pub mod Types
pub mod Ports
pub mod Entries
pub mod Files
pub mod Args
pub mod Names
pub mod Add
pub mod Ops
pub mod Process
pub mod Choice
pub mod Load
pub mod Defaults
pub mod Snapshots
pub mod Chains
