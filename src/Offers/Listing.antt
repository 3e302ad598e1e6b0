-- ===== src/Offers/Listing.antt =====
-- The lists of offers and what takes an offer off them: `received`, `sent`, `removeFromListing` and
-- `dismiss`. A list is the ids of its page; what is selected with each row is left out.
use buyseekk.Prelude.{
  leb, ℕ, Bool, true, false, Option, none, some, List, ◌==◌, ◌&&◌, ◌||◌, not, is_some, is_none,
  or_else, get_elem?, length, take, drop, map,
}
use buyseekk.Shared.Pagination.{PaginatedResult, parse_pagination, to_paginated_result}
use buyseekk.Db.Schema.{OfferStatus, Request, Offer, Db}
use buyseekk.Db.Errors.{Error}
use buyseekk.Db.Action.{Action, pure, gets, or_raise, raise_if, choose, ◌>>=◌, ◌>>◌}
use buyseekk.Db.Tables.{
  is_pendiente, is_aceptada, is_rechazada, find_offer, find_request, update_offer,
}
use buyseekk.Requests.Paging.{ids_where, order_desc}

abbrev same_status : OfferStatus → OfferStatus → Bool
same_status OfferStatus.pendiente s = is_pendiente s
same_status OfferStatus.aceptada s = is_aceptada s
same_status OfferStatus.rechazada s = is_rechazada s

abbrev request_of_buyer : ℕ → Option Request → Bool
request_of_buyer user_id none = false
request_of_buyer user_id (some r) = r.user_id == user_id && r.active

-- The `where` of `received`.
unfoldable pub received_where : List Request → ℕ → Option OfferStatus → Offer → Bool
received_where requests user_id status o =
    same_status (or_else status OfferStatus.pendiente) o.status
    && not o.hidden_by_moderation
    && is_none o.buyer_deleted_at
    && request_of_buyer user_id (get_elem? requests o.request_id)

-- The `where` of `sent`.
unfoldable pub sent_where : ℕ → Option OfferStatus → Offer → Bool
sent_where seller_id status o =
    o.seller_id == seller_id
    && not o.dismissed_by_seller
    && is_none o.seller_deleted_at
    && elim status [ none ↦ true | some s ↦ same_status s o.status ]

-- A page of the offers that fit, the newest first, and of one time the first in the table.
unfoldable pub offers_page : (Offer → Bool) → Option ℕ → Option ℕ → List Offer → PaginatedResult ℕ
offers_page fits page limit offers =
    let r = parse_pagination page limit in
    let all = order_desc leb (λ o. o.created_at) (ids_where fits 0 offers) in
    to_paginated_result (map (λ e. e.0) (take r.limit (drop r.skip all))) (length all) r.page
      r.limit

unfoldable pub received : ℕ → Option ℕ → Option ℕ → Option OfferStatus → Db → PaginatedResult ℕ
unfolding received_where offers_page
received user_id page limit status db =
    offers_page (received_where db.requests user_id status) page limit db.offers

unfoldable pub sent : ℕ → Option ℕ → Option ℕ → Option OfferStatus → Db → PaginatedResult ℕ
unfolding sent_where offers_page
sent seller_id page limit status db = offers_page (sent_where seller_id status) page limit db.offers

abbrev always : Offer → Bool
always _ = true

unfoldable pub dismiss : ℕ → ℕ → Action (Unit {0})
dismiss offer_id seller_id = do
  offer ← or_raise (← gets (find_offer offer_id)) Error.offer_not_found
  raise_if (not (offer.seller_id == seller_id)) Error.offer_not_found
  raise_if (not (is_rechazada offer.status)) Error.not_rejected
  update_offer offer_id always (λ o. record o { dismissed_by_seller = true })
  pure tt

-- The end of `removeFromListing`: the side that removes the offer no longer lists it.
abbrev delete_for_side : ℕ → ℕ → Bool → Offer → Action (Unit {0})
delete_for_side now offer_id is_buyer offer =
    choose is_buyer
      (choose (is_some offer.buyer_deleted_at) (pure tt)
        (do update_offer offer_id always (λ o. record o { buyer_deleted_at = some now }); pure tt))
      (choose (is_some offer.seller_deleted_at) (pure tt)
        (do update_offer offer_id always (λ o. record o { seller_deleted_at = some now }); pure tt))

unfoldable pub remove_from_listing : ℕ → ℕ → ℕ → Action (Unit {0})
unfolding dismiss
remove_from_listing now offer_id user_id = do
  offer ← or_raise (← gets (find_offer offer_id)) Error.offer_not_found
  request ← or_raise (← gets (find_request offer.request_id)) Error.broken_reference
  let is_buyer = request.user_id == user_id
  let is_seller = offer.seller_id == user_id
  raise_if (not is_buyer && not is_seller) Error.forbidden
  choose (is_rechazada offer.status && is_seller) (dismiss offer_id user_id) (do
    raise_if (is_pendiente offer.status) Error.pending_not_removable
    raise_if
        (is_aceptada offer.status
          && is_none offer.deal_completed_at
          && is_none offer.negotiation_ended_at)
        Error.active_not_removable
    raise_if
        (not (
          is_some offer.deal_completed_at
          || (is_some offer.negotiation_ended_at && is_none offer.deal_completed_at)))
        Error.not_removable
    delete_for_side now offer_id is_buyer offer)
