-- ===== src/Tests.antt =====
-- The development applied to concrete inputs.
mod Samples
mod Authority
mod Runs
mod Workspaces
mod Limits
mod Accounts
mod Clocks
