-- ===== src/Identity/Store.antt =====
-- The in-process stores of backend/app/identity/store.py.
pub mod Users
pub mod Sessions
pub mod Tokens
