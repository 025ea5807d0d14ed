-- ===== src/Runtime.antt =====
-- backend/app/runtime: the state of a run, its steps, and the loop that drives them. The parts use
-- each other by their own modules.
pub mod State
pub mod Control
pub mod Invariant
pub mod Planning
pub mod Summary
pub mod Requests
pub mod Delegation
pub mod World
pub mod Actions
pub mod Runner
pub mod Resume
