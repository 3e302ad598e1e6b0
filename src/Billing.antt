-- ===== src/Billing.antt =====
-- Payments: apps/api/src/billing. What Stripe reports about a subscription becomes a row of
-- `Subscription`, and the row grants Plus (`Shared.Subscription`).
pub mod Store
pub mod Mapper
pub mod Claim
pub mod Sync
pub mod Webhook
pub mod Checkout
pub mod Status
