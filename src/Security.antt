-- ===== src/Security.antt =====
-- backend/app/security: the policy layer every agent action passes, and the approval records.
pub mod Contracts
pub mod Permissions
pub mod Risk
pub mod Policy
pub mod Approvals
