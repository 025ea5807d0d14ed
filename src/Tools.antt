-- ===== src/Tools.antt =====
-- backend/app/tools: the tool contract and the boundary that executes tools.
pub mod Types
pub mod Arguments
pub mod Executor
