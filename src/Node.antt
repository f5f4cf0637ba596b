-- ===== src/Node.antt =====
-- The node: its chain specifications, its services and its command line.
pub mod ChainSpec
pub mod Service
pub mod Command
pub mod Benchmarking
pub mod Rpc
pub mod Genesis
