-- ===== src/Market.antt =====
-- The requests and the offers of the database under the methods of offers.service.ts,
-- requests.service.ts and chats.service.ts, one after the other and interleaved.
pub mod Invariant
pub mod Negotiation
pub mod Requests
pub mod Methods
pub mod Moves
pub mod Calls
pub mod Runs
pub mod History
pub mod Interleaving
pub mod Deals
pub mod Listing
