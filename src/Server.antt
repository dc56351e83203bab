-- ===== src/Server.antt =====
-- server/server.go: the gRPC server that controls one network.
pub mod Types
pub mod Specs
pub mod Runner
pub mod State
pub mod Nodes
pub mod Chains
pub mod Lifecycle
pub mod Queries
pub mod Requests
pub mod Waiting
pub mod Configs
pub mod Network
