-- ===== src/Tenancy/Service.antt =====
-- TenancyService of backend/app/tenancy/service.py. A method takes the stores and returns them with
-- what it returns or raises; those that only pass a call on to a store have no model of their own.
-- The clock is read once in each call. `normalize` is `.strip().lower()`, `strip` is `.strip()` and
-- `hash_token` is that of backend/app/identity/tokens.py.
pub mod Audit
pub mod State
pub mod Workspaces
pub mod Members
pub mod Owners
