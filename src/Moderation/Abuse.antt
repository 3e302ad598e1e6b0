-- ===== src/Moderation/Abuse.antt =====
-- The protections of apps/api/src/reports/reports.service.ts against abuse: one report for each content, no weight for those
-- that do not count, one for each address.
pub mod Again
pub mod Weightless
pub mod Addresses
