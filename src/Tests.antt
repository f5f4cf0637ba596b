-- ===== src/Tests.antt =====
-- The development at concrete inputs: instances of the interfaces, and each theorem applied.
mod Scale
mod Chain
mod Machine
mod Executions
mod Calls
mod Compiled
mod Kontracts
mod Nodes
mod Sequences
mod Orders
mod Runtimes
mod Fuel
mod Repository
