-- ===== src/Identity/Service.antt =====
-- AuthService of backend/app/identity/service.py.
pub mod State
pub mod Sessions
pub mod Recovery
pub mod Messages
pub mod Login
pub mod Profile
pub mod SignedOut
