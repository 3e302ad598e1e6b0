-- ===== src/Auth.antt =====
-- Accounts and their sessions: apps/api/src/auth.
pub mod State
pub mod Duration
pub mod Sessions
pub mod Accounts
pub mod Runs
