-- ===== src/Contracts.antt =====
-- backend/app/contracts: the typed actions and plans that a model proposes.
pub mod Actions
pub mod Investigation
