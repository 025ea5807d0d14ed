-- ===== src/Tenancy/Store.antt =====
-- backend/app/tenancy/store.py: the in-process stores. Each is a dictionary by identifier under a
-- lock, so a method is one step. A fresh identifier and the time are arguments.
pub mod Workspaces
pub mod Memberships
pub mod Invitations
pub mod Preferences
