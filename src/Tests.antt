-- ===== src/Tests.antt =====
-- Concrete databases, and the theorems at concrete inputs.
mod Data
mod Outbox
mod Evidence
mod Loans
mod Worker
mod Postgres
mod Daily
mod Http
mod Services
mod Logger
mod KeyStore
mod RateLimit
mod Vaults
