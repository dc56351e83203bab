-- ===== src/Examples.antt =====
-- A small host and a small network, and runs of the program on them.
mod Demo
mod Configs
mod Nodes
mod Histories
mod Servers
mod Processes
mod Loading
mod Disk
mod Snapshots
mod SnapshotCases
mod Chains
mod Updates
