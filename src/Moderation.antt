-- ===== src/Moderation.antt =====
-- Reports and what they set off: apps/api/src/reports/reports.service.ts with moderation.config.ts.
pub mod Rows
pub mod Thresholds
pub mod Reports
pub mod Counting
pub mod Justified
pub mod Filed
pub mod Abuse
