-- ===== src/Worker.antt =====
-- The ledger worker: apps/ledger-worker/src/tx-executor.js and the coordinator of sequences beside it.
-- What lies beyond the worker is a record of calls on a state `L` of the ledger and the key store.
mod State
pub mod Results
pub mod Network
pub mod Lookup
pub mod Change
pub mod Submit
pub mod Executor
pub mod Metadata
pub mod Indexer
pub mod Reconciliation
pub use State.*
