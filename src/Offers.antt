-- ===== src/Offers.antt =====
-- apps/api/src/offers/offers.service.ts. A method takes the time as its first argument, for every
-- `new Date()` in it, and answers with what the response tells beside the offer's own row.
-- `afterCommitNotify` catches what the notification throws, so it is a plain entry of the outbox.
pub mod Negotiation
pub mod Create
pub mod Listing
