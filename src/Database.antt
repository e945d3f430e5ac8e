-- ===== src/Database.antt =====
-- apps/control-api/src/db/memory.js: the tables of `MemoryDatabase` and its clock and identifiers.
-- A row object that a query returns is the row of the table; an update finds it by its id.
pub mod Lending
mod Tables
pub mod Outbox
pub mod Ledgers
pub mod Entities
pub mod Sequences
pub mod Evidence
pub mod Postgres
pub mod Anchor
pub mod Dashboard
pub use Tables.*
