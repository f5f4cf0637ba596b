-- ===== src/Executor.antt =====
-- The executor crate (kontracs/kontracts-executor/src/lib.rs): the store of one execution, the
-- host functions that a kontract imports, and the entry point that the pallet calls.
pub mod Store
pub mod Memory
pub mod Host
pub mod Guest
pub mod Execute
pub mod Fuel
pub mod Trace
