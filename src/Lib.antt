-- ===== src/Lib.antt =====
-- A model of the credit orchestrator for the XRP Ledger: the control API, from the admission of a
-- request to the database and its transaction outbox, and the ledger worker, which submits what is
-- queued, with the packages that both use: evidence, builders, key store, logger and metrics.
--
-- The parts and how they interact. A request passes the rate limiter, the check of its token and
-- of its role, and its body is read (apps/control-api/src/http); the handler of its route
-- (apps/control-api/src/main.js) calls a service. The loan service
-- (apps/control-api/src/services/loans.service.js) approves loans, prepares LoanSet transactions
-- and records their two signatures; it writes to the database's tables
-- (apps/control-api/src/db/memory.js), queues transactions in the outbox, which the ledger worker
-- claims and submits, and records each act in an evidence chain
-- (packages/evidence-sdk/src/index.js).
--
-- Which file models which part:
-- - Prelude: names shared by all files. Prelude/Actions is the form of every call that reads and
--   writes a state and may throw; what was written before a throw stays written, as in the source.
-- - Json: the values of a dynamic language, `undefined` included. Numbers are naturals, since
--   amounts are texts and the rest are counts, rates and sequences; Json/Print is `JSON.stringify`
--   and `String()`.
-- - Shared: packages/shared-types/src/index.js.
-- - Evidence: packages/evidence-sdk/src/index.js. `canonicalize` is Evidence/Canonical; `hashEvent`,
--   `createEvidenceEvent` and `verifyChain` are `hash_event`, `create_evidence_event`,
--   `verify_chain`.
-- - Database: apps/control-api/src/db/memory.js. Its state is `Store` of Database/Tables; the outbox
--   is Database/Outbox, evidence Database/Evidence, parties and vaults Database/Entities, brokers
--   and loans Database/Lending, transactions, checkpoints and runs Database/Ledgers, account
--   sequences Database/Sequences. Database/Postgres is the evidence part of
--   apps/control-api/src/db/pg.js, Database/Postgres/Outbox its outbox, with the unique index of
--   infra/postgres/001_init.sql, and Database/Postgres/Leases its account sequences. Database/Anchor
--   is `generateChainAnchor`, over the evidence table, and Database/Dashboard the seed users and the
--   counts of the dashboard.
-- - Audit: `buildAuditBundle` of packages/evidence-sdk/src/index.js and
--   apps/control-api/src/services/audit.service.js.
-- - Borrowers: apps/control-api/src/services/borrowers.service.js.
-- - Http: Http/Router is apps/control-api/src/http/router.js, whose `handle` is `handle`, with the
--   patterns of paths in Http/Pattern, over the state `Site` of the limiter's buckets and the
--   application; Http/Body is apps/control-api/src/http/json.js, Http/Token
--   apps/control-api/src/http/auth.js, and Http/Routes and Http/Tenant the routes of
--   apps/control-api/src/main.js, with `run` for the handlers.
-- - KeyStore: packages/keystore/src. KeyStore/Der, KeyStore/Spki and KeyStore/Blob are
--   kms-helpers.js, KeyStore/Providers is index.js, with `describe()` in KeyStore/Describe, whose
--   provider classes are the constructors of `KeyStore`.
-- - Logger, Metrics: packages/logger/src/index.js and packages/metrics/src/index.js.
-- - Builders: packages/xrpl-client/src/builders.js.
-- - Loans: apps/control-api/src/services/loans.service.js. Its two signatures are in
--   Loans/Signatures, which take what a request names as it is, `undefined` included. Loans/Order
--   has the calls as steps, with the writes of the worker's jobs in Loans/Writes.
-- - Vaults: apps/control-api/src/services/vaults.service.js; what a request leaves out is an
--   `Option`. Vaults/Brokers has the calls on loan brokers.
-- - Worker: apps/ledger-worker/src/tx-executor.js. Its state is `World` of Worker/State: the
--   database, an abstract ledger with its key store, reached through the record `Calls`, and the
--   last checks. `checkNetworkReadiness` and `checkFee` are in Worker/Network, `lookupTx` in
--   Worker/Lookup, `_signAndSubmit` in Worker/Submit/Attempts with the coordinator of
--   apps/ledger-worker/src/sequence-coordinator.js, `_processOne` and `processPending` in
--   Worker/Executor. The number of attempts and of lookups is the source's, and is what these two
--   loops recurse on. Worker/Change says how a call changes the outbox. Worker/Metadata is
--   apps/ledger-worker/src/runs/xrpl-state.js, which throws on affected nodes that it cannot read, as
--   Worker/Metadata/Readable says, Worker/Indexer
--   apps/ledger-worker/src/runs/ledger-indexer.js, and Worker/Reconciliation, with
--   Worker/Reconciliation/Run, the immediate run of apps/ledger-worker/src/runs/reconciliation.js,
--   with its daily run in Worker/Reconciliation/Daily.
-- - RateLimit: apps/control-api/src/http/rate-limit.js. A check takes the two readings of the clock.
-- - Tests: a concrete database and a concrete ledger.
--
-- What the runtime provides is a parameter: the record `Host` has SHA-256, random identifiers, the
-- clock's text, hexadecimal digits and password hashes; `Crypto` the keyed hash, base64url,
-- `JSON.parse` and the password hash of tokens; `Reader` the decoding of a body; `Runtime` the
-- wallets and the environment of a key store. A theorem that needs the identifiers not to repeat,
-- or a hash not to collide, says so. A row object that a query returns is the row in its table,
-- and an update finds it by its identifier. The clock of a store stands still during a call. Every
-- loop is structural recursion, on the rows, on the events, on the chunks, on the characters, or
-- on the number of polls. The fuel of `decimal` and `to_hex` is at least the number, which has at
-- most as many digits; the eleven levels into which the logger looks are the source's.
--
-- Not modelled: the quote of a loan, which computes with floating point; sockets, and the reading
-- of a typed request out of a parsed body, which `Setup` provides for all calls but the two
-- signatures; the SQL of the tables other than evidence, outbox and sequences; the ledger client,
-- which the worker takes as a parameter; the configuration, the timers of the two entry points, the
-- operators' scripts and the static portals.
pub mod Prelude
pub mod Json
pub mod Shared
pub mod Evidence
pub mod Database
pub mod Builders
pub mod Loans
pub mod Borrowers
pub mod Audit
pub mod Vaults
pub mod Http
pub mod KeyStore
pub mod Logger
pub mod Metrics
pub mod Worker
pub mod RateLimit
pub mod Tests
