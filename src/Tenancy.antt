-- ===== src/Tenancy.antt =====
-- backend/app/tenancy: workspaces, their members and invitations, and what a role may do.
pub mod Contracts
pub mod Permissions
pub mod Store
pub mod Service
pub mod Rows
pub mod Ownership
pub mod Versions
pub mod Entries
pub mod Once
pub mod Access
pub mod Barred
pub mod StaysOut
pub mod Runs
