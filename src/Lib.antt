-- ===== src/Lib.antt =====
-- BuySeekk: the rules of the marketplace and the services that keep them.
--
-- BuySeekk is a reverse marketplace: buyers publish requests, sellers send offers on them, an accepted
-- offer opens a negotiation with a chat, and a negotiation ends with a deal or without one. The
-- repository is a monorepo: `packages/shared` holds the pure rules that the API and the clients
-- share, `apps/api` a NestJS service over a Prisma database, `apps/web` and `apps/mobile` the clients.
-- This library models the rules and the services of the API that keep the marketplace's state.
--
-- The files and the code that they are about:
-- - Shared and its children: packages/shared/src/request-status.ts (effectiveRequestStatus, the
--   priorities and the sorts), pagination.ts, subscription.ts, user-mode.ts, seller-profile.ts,
--   money-limits.ts and limits.ts. A status is a data type, a Date its milliseconds.
-- - Db: the tables of apps/api/prisma/schema.prisma as lists of records (Schema, Tables), the
--   exceptions (Errors) and a service method as a state-and-exception action (Action). A row's id is
--   its position in its table. `transaction` rolls back when its body throws; other writes stay.
-- - Access: apps/api/src/common/utils and apps/api/src/subscription/subscription.service.ts, the
--   checks on an account and on what it sends.
-- - Requests: apps/api/src/requests/request-status.ts (Visibility), paginateSellerMarketplaceIds
--   (Paging), and of requests.service.ts create (Publish, create_request), update (Edit), and close,
--   renew, pause, remove, getOne and getPublicOne (Lifecycle).
-- - Offers: apps/api/src/offers/offers.service.ts: create (Create), accept, reject, complete and
--   endNegotiation (Negotiation), the lists, dismiss and removeFromListing (Listing). Each transaction
--   is a definition of its own (accept_commit, complete_commit, end_commit), since what a method reads
--   before its transaction may be out of date when the transaction runs.
-- - Chats: apps/api/src/chats/chats.service.ts: send, join and the read marks.
-- - Billing: apps/api/src/billing. Stripe's objects and their normal form (Mapper), the lease on a
--   webhook event (Claim), the synchronisation of a subscription and the cached plan (Sync), the
--   event handler (Webhook, with the order of delivery in its child Ordering), the checkout
--   (Checkout) and the plan page with its cancellation (Status). It has tables of its own (Store),
--   apart from Db, and shows the whole of Subscription, of which Db has two columns.
-- - Auth: apps/api/src/auth. Refresh tokens (Sessions), accounts, mails' tokens and passwords
--   (Accounts), the duration setting (Duration) and sequences of calls (Runs), on tables of their
--   own (State).
-- - Moderation: apps/api/src/reports/reports.service.ts (Reports): create with its thresholds, on
--   tables of its own; runs of reports and what they hide (Justified), and the protections against
--   abuse (Abuse).
-- - Market: the invariant of requests and offers (Invariant), each method and each transaction
--   against it where nothing runs at the same time (Negotiation, Requests, Methods, Moves, Calls),
--   sequences of calls one after the other (Runs) and interleavings of the writes of concurrent
--   calls (Interleaving): a step writes offers under the guard that PostgreSQL tests on the written
--   row, and a step that acts on an offer names the earlier state in which its call read the offer.
--   The create method of the requests service is no call of Runs.
-- - Scenarios: small databases on which the theorems are applied.
-- - Prelude: what the modules share (Shared.Effect, Shared.Keyed and Shared.TextOrder too): Boolean
--   tests, lists as tables, strings as UTF-16 code units.
--
-- Parameters: the spam patterns and fingerprints of content-policy.ts, the tests of an image's URL
-- and the setting PLUS_FEATURES_UNLOCKED are fields of the record Access.Env, the catalogues of cars
-- and places fields of Requests.Publish.Catalogue, what the Stripe client answers a field of
-- Billing.Webhook.Provider, Billing.Checkout.CheckoutProvider and Billing.Status.StatusProvider, and
-- hashes, letter case and settings fields of Auth.State.Env; the theorems hold for all of them. What
-- is random is an argument. The database is trusted for its unique indexes, for testing the `where`
-- of an update on the row that it writes, and for the rollback of a transaction. The code sets no
-- isolation level, so transactions run as READ COMMITTED: what a transaction counts may miss what
-- another one has not committed. Interleaving assumes nothing of what is counted; the other theorems
-- on the Db are about calls that run one after the other. Shared.Decimal prints a number with fuel,
-- one more than the number itself, which has fewer digits than that; all other definitions are
-- structural.
--
-- Not modelled: the texts and the delivery of notifications (the calls are recorded in `outbox`),
-- the socket events, the formatting of responses, images in object storage, mails, signed access
-- tokens, cookies and administration. A failed notification, which the services log and ignore, is
-- not an error here.
pub mod Prelude
pub mod Shared
pub mod Db
pub mod Access
pub mod Billing
pub mod Auth
pub mod Moderation
pub mod Requests
pub mod Offers
pub mod Chats
pub mod Market
pub mod Scenarios
