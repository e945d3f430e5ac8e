-- ===== src/Http.antt =====
-- apps/control-api/src/http and apps/control-api/src/main.js: bodies, tokens, the router and the routes.
-- A text is a native string, and a chunk of a body the list of its bytes.
pub mod Pattern
pub mod Body
pub mod Token
pub mod Router
pub mod Tenant
pub mod Routes
