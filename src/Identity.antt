-- ===== src/Identity.antt =====
-- backend/app/identity: who calls the HTTP routes.
pub mod RateLimit
pub mod Contracts
pub mod Store
pub mod Service
