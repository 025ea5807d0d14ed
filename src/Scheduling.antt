-- ===== src/Scheduling.antt =====
-- backend/app/scheduling: reports that run on a clock.
pub mod Contracts
pub mod Calculator
pub mod Store
pub mod Worker
