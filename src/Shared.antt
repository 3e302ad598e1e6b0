-- ===== src/Shared.antt =====
-- The rules of packages/shared/src that the API and the clients have in common.
pub mod Limits
pub mod RequestStatus
pub mod Pagination
pub mod Subscription
pub mod UserMode
pub mod Money
pub mod Effect
pub mod Keyed
pub mod TextOrder
pub mod Decimal
