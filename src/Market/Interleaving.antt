-- ===== src/Market/Interleaving.antt =====
-- Interleavings of concurrent calls, for what they do to the offers. What a call has read before a step may be
-- out of date when the step is taken. A step's offers rest on what PostgreSQL tests on the row that it writes, whatever
-- the isolation: the `where` of the update, and the unique index. What a transaction makes of the requests
-- rests on counts, which may miss what runs at the same time: between two steps the requests become
-- anything at all. A close that misses an offer accepted at the same time is the end of the others, one by one.
pub mod Safety
pub mod Calls
use buyseekk.Prelude.{
  ℕ, ◌≡◌, refl, ap, ◌⊎◌, inl, inr, Bool, true, false, Option, none, some, List, [], ◌∷◌, ◌++◌,
  modify, get_elem?, Option-cases, arith,
}
use buyseekk.Db.Schema.{RequestTerms, OfferStatus, NegotiationEndedBy, Request, Offer, Db}
use buyseekk.Db.Action.{transaction}
use buyseekk.Db.Tables.{
  is_pendiente, find_offer, update_offer, set_offers, set_requests, touch, start_negotiating,
}
use buyseekk.Offers.Create.{CreateOfferDto, new_offer, insert_offer}
use buyseekk.Offers.Negotiation.{accept_commit, complete_commit, end_commit}
use buyseekk.Requests.Lifecycle.{close_commit, renew_row, pause_row, deactivate}
use buyseekk.Requests.Edit.{edited_row}
use buyseekk.Market.Negotiation.{Unchanged, rejected_row}
use buyseekk.Market.Moves.{dismissed_row, buyer_deleted_row, seller_deleted_row}

-- The mark of an offer that is written on its own.
pub data OfferMark : Type 0 where
  dismissed : OfferMark
  buyer_deleted seller_deleted : (now : ℕ) → OfferMark

abbrev pub mark_row : OfferMark → Offer → Offer
mark_row OfferMark.dismissed o = dismissed_row o
mark_row (OfferMark.buyer_deleted now) o = buyer_deleted_row now o
mark_row (OfferMark.seller_deleted now) o = seller_deleted_row now o

-- The guarded update of `reject`.
unfoldable pub reject_update : ℕ → Db → Db
reject_update offer_id db = (update_offer offer_id (λ o. is_pendiente o.status) rejected_row db).1

-- `Run a b`: the writes of any number of calls, in any order, lead from `a` to `b`. A step that acts
-- on an offer its call read before names the state it was read in.
pub data Run : Db → Db → Type 0 where
  idle : {a : Db} → Run a a
  accepts :
      {a seen b : Db}
      → Run a seen
      → Run seen b
      → (now offer_id : ℕ) (offer : Offer) → find_offer offer_id seen ≡ some offer
      → Run a (transaction (accept_commit now offer_id offer) b).1
  completes :
      {a seen b : Db}
      → Run a seen
      → Run seen b
      → (now offer_id : ℕ) (offer : Offer) → find_offer offer_id seen ≡ some offer
      → Run a (transaction (complete_commit now offer_id offer.request_id) b).1
  ends :
      {a b : Db}
      → Run a b
      → (now offer_id request_id : ℕ) (by : NegotiationEndedBy)
      → Run a (transaction (end_commit now offer_id request_id by) b).1
  rejects : {a b : Db} → Run a b → (offer_id : ℕ) → Run a (reject_update offer_id b)
  closes : {a b : Db} → Run a b → (now id : ℕ) → Run a (close_commit now id b)
  creates :
      {a b : Db}
      → Run a b
      → (now : ℕ) (request : Request) (seller_id : ℕ) (dto : CreateOfferDto) (message : List ℕ)
      → Run a (insert_offer (new_offer now request seller_id dto message) b).1
  rewrites : {a b : Db} → Run a b → (rs : List Request) → Run a (record b { requests = rs })
  marks :
      {a b : Db}
      → Run a b
      → (m : OfferMark) (id : ℕ) → Run a (set_offers (λ os. modify os id (mark_row m)) b)
  elsewhere : {a b c : Db} → Run a b → Unchanged b c → Run a c
