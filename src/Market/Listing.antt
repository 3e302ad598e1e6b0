-- ===== src/Market/Listing.antt =====
-- What `removeFromListing` allows, against `canRemoveOfferFromListing` of the shared package, by which
-- the clients offer it.
use buyseekk.Prelude.{ℕ, ◌≡◌, ◌↔◌, ◌⊎◌, true, some, arith}
use buyseekk.Db.Schema.{OfferStatus, Request, Offer, Db}
use buyseekk.Db.Action.{ok}
use buyseekk.Db.Tables.{
  find_offer, find_request, can_remove_offer_from_listing, is_negotiation_ended_without_deal,
}
use buyseekk.Offers.Listing.{remove_from_listing, dismiss}
use buyseekk.Market.Negotiation.{DbIsValid}

-- On a database that keeps the invariant, for the buyer or the seller of an offer: a seller may remove a rejected offer, and either side one with a deal or with a negotiation that
-- was ended without one; any other removal is refused.
pub remove_from_listing_iff :
    (now offer_id user_id : ℕ) (db : Db) {offer : Offer} {request : Request}
    → DbIsValid db
    → find_offer offer_id db ≡ some offer
    → find_request offer.request_id db ≡ some request
    → (request.user_id ≡ user_id) ⊎ (offer.seller_id ≡ user_id)
    → ((remove_from_listing now offer_id user_id db).0 ≡ ok tt) ↔ (
        (can_remove_offer_from_listing offer ≡ true)
        ⊎ ((offer.status ≡ OfferStatus.rechazada) × (offer.seller_id ≡ user_id)))
unfolding remove_from_listing dismiss can_remove_offer_from_listing
    is_negotiation_ended_without_deal
remove_from_listing_iff now offer_id user_id db v found of side =
    let sound = v.sound offer_id found in ground (arith, sound.deal_accepted, sound.ended_accepted)
