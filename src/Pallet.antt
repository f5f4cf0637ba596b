-- ===== src/Pallet.antt =====
-- The pallet (kontracs/pallets/kontracts/src/lib.rs): its storage, events and errors, and the four
-- calls. The calls are in the children, with their proofs below them.
pub mod Config
pub mod State
pub mod Calls
pub mod Settlement
pub mod Effects
pub mod Local
pub mod Isolation
pub mod Money
pub mod Atomic
pub mod Registry
pub mod Reach
pub mod Execution
pub mod Weights
pub mod Backing
pub mod Dispatch
pub mod Liveness
