-- ===== src/Config.antt =====
-- network/node/node.go, network/config.go: the configurations of a node and of a network.
mod Types
pub mod Node
pub mod Network
pub use Types.*
