-- ===== src/Lib.antt =====
-- Kontracts: wasm programs with a storage of their own, kept and run by a Substrate chain.
--
-- The program's parts. A kontract is a wasm binary with one entry point, main, and three imports,
-- set, get and remove. The pallet (kontracs/pallets/kontracts) keeps codes by their hash and a
-- storage for each code id, and has four calls: upload_code, execute_code, delete_code and
-- update_code. Its execute_code encodes the kontract's storage, hands it to the executor
-- (kontracs/kontracts-executor), a host function of the node that runs the binary in wasmtime with
-- limits on fuel, reads and writes, and gets the encoded new storage back. By the change of its
-- size it reserves, releases or slashes balance of the caller, and keeps the new storage. Authors
-- write kontracts with an attribute macro (rust_kontract/kontracts-proc-macro) that provides write,
-- read and delete over the imports. The runtime (kontracs/runtime) configures the pallet, and the
-- node (kontracs/node) builds the chain's genesis and starts the services.
--
-- Which file models what:
--   Prelude, Bytes     numbers, lists, results (`Result` with a panic is Outcome), byte vectors
--   BTreeMap           Rust's BTreeMap, as a sorted list of entries
--   Codec              parity-scale-codec, a parameter: record Codec, laws in record IsScale
--   Executor/Store     kontracs/kontracts-executor/src/lib.rs: KontractStore, update_with_check,
--                      kontracts_set, kontracts_get, kontracts_remove
--   Executor/Memory    read_vec and write_vec
--   Executor/Host      the three closures under "env": host_call
--   Executor/Guest     a run of a kontract, the tree of its host calls
--   Executor/Execute   ExecutionErrors, and execute_code of the trait KontractsExecutor
--   Executor/Fuel      a kontract's steps under metered fuel
--   Executor/Trace     the specification of a run: its operations, replayed on a function
--   Pallet/Config      trait Config, and the storage maps and currency that FRAME provides
--   Pallet/State       Codes, Storages, Event, Error, and how a call runs on them
--   Pallet/Calls       the four calls; settle is the match in execute_code, keep_storage its end
--   Pallet/Settlement  the specification of what an execution costs and leaves behind
--   Pallet/Weights     the weight attributes of the calls
--   Pallet/Reach       the states that successful calls reach, and their invariant
--   Pallet/Dispatch    the calls as data, and sequences of extrinsics; its Register is the
--                      specification of the codes that are registered; its Apart
--                      says which extrinsics have nothing to do with each other, its Unordered
--                      and Interleaved are about batches in any order, its Log about what the
--                      events tell
--   Pallet/Local       what an execution reads of the state, and when two states are alike to it
--   Runtime/Storages   a kontract's storage over a sequence of extrinsics, as its operations
--   Pallet/Backing     whether the deposits on a chain cover its storages
--   Kontract           the macro: write, read, delete; Kontract/Programs: the kontracts of
--                      kontracs/pallets/kontracts/wasm_test and of rust_kontract/src/lib.rs; Kontract/Endless: its loop.rs
--   Runtime            version, constants and bounds of kontracs/runtime/src/lib.rs; Runtime/Config:
--                      the configuration of its pallets; Runtime/Apis: its APIs, in
--                      Runtime/Apis/Features those behind features; Runtime/Blocks: the
--                      limits of a block; Runtime/Slots, Runtime/Fees: time and fees, with
--                      the node's inherents and genesis; Runtime/Mock:
--                      kontracs/pallets/kontracts/src/mock.rs
--   Node               chain_spec.rs, service.rs, command.rs, cli.rs, benchmarking.rs and rpc.rs of
--                      kontracs/node/src; Node/Service/Started: what a node consists of and in
--                      which order it starts; Node/Genesis: what FRAME asks of a genesis
--   Tests              instances of the interfaces, and the theorems at concrete inputs;
--                      Tests/Repository: kontracs/pallets/kontracts/src/tests.rs, run in the model
-- The other children of these modules hold proofs, and are named for what they prove.
--
-- State. A host function maps Caller, the store's data and the exported memory, to a result and a
-- new Caller. A call of the pallet maps State to a result and a new State, in which what was
-- written before an error still stands: FRAME runs a call in a storage layer that an error
-- discards, as its documentation says, so only calls that return Ok are steps of the chain (Reach),
-- and dispatch keeps the state before a call that fails. Events stand with the last one first.
--
-- Numbers. u32 counters and weights wrap, as release builds do, and so do the casts and the i32
-- arithmetic on sizes, which is exact below 2 ^ 31; usize has 64 bits. The theorems on limits ask
-- for limits below 2 ^ 32 - 1, since the counter of a limit of 2 ^ 32 - 1 wraps instead of trapping.
-- Metered wasm is finite, so a run is a well-founded tree, and the end of the fuel is one way for a
-- tree to end in a trap. Executor/Fuel makes the tree from a program's steps and an amount of fuel,
-- which is the fuel that the caller declares: no bound is chosen for it. The search for a power of
-- two in Node/Benchmarking goes through all 32 that a u32 has.
--
-- Parameters. wasmtime (Engine; Meters where its fuel matters), the codec (Codec, Words),
-- Blake2, FRAME's storage, origins and currency (Config; IsLocal where the order of executions
-- matters: a reservation and a slash are decided by the balances of the account alone), the
-- weights of the database, wee_alloc (Allocator), key derivation (Keys), Substrate's services
-- (Substrate), eras and signatures (Chain), its limits of blocks (Limits), fees (FeeRules) and
-- clock (Clock), and what the runtime APIs call (Frame) are not held by the repository: they are
-- parameters, with documented behaviour as laws. Allocations of a kontract succeed.
--
-- Not modelled: what a wasm instruction does, and its price in fuel; the items of the pallets'
-- configuration that only name a type of FRAME; build scripts and main.rs; in Node/Service, the
-- arguments of Substrate's calls that are constants or the configuration as a whole; and the
-- getters of the command line that the build fills in.
pub mod Prelude
pub mod Bytes
pub mod BTreeMap
pub mod Codec
pub mod Executor
pub mod Pallet
pub mod Kontract
pub mod Runtime
pub mod Node
mod Tests
