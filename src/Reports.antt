-- ===== src/Reports.antt =====
-- backend/app/reports: saved reports.
pub mod Periods
