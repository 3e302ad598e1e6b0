-- ===== src/Offers/Create.antt =====
-- `OffersService.create`: the guards in the order of the code, then the insert under the unique
-- index (requestId, sellerId). The deletion of uploaded images after a failed insert is left out.
pub mod Laws
use buyseekk.Prelude.{
  ℕ, Bool, true, false, Option, none, some, List, [], ◌∷◌, ◌++◌, ◌==◌, ltb, ◌&&◌, ◌||◌, not,
  is_some, some_of, length, Text, trim, is_empty, if◌then◌else◌,
}
use buyseekk.Shared.Limits.{offer_message_max_length}
use buyseekk.Shared.RequestStatus.{
  RequestLifecycleInput, is_cerrada, is_offerable, is_visible_to_sellers,
}
use buyseekk.Shared.UserMode.{can_send_offers}
use buyseekk.Db.Schema.{
  Country, OperationType, OfferStatus, Request, Offer, OfferTerms, RequestSnapshot, Notification,
  Db,
}
use buyseekk.Db.Errors.{Error}
use buyseekk.Db.Action.{ok, err, Action, pure, raise, gets, or_raise, raise_if, write, ◌>>=◌, ◌>>◌}
use buyseekk.Db.Tables.{find_request, find_user, set_offers, post}
use buyseekk.Requests.Visibility.{to_lifecycle_input, same_country}
use buyseekk.Access.{
  Env, assert_account_active, assert_email_verified, assert_image_urls, assert_clean_public_text,
  assert_valid_money_amount, assert_offer_spam_limits, assert_daily_offer_limit,
}

pub record CreateOfferDto : Type 0 where
  pub request_id : ℕ
  pub terms : OfferTerms

abbrev is_alquiler : OperationType → Bool
is_alquiler OperationType.alquiler = true
is_alquiler OperationType.compra = false

-- An offer of this seller on this request.
unfoldable pub is_offer_of : ℕ → ℕ → Offer → Bool
is_offer_of request_id seller_id o = o.request_id == request_id && o.seller_id == seller_id

-- The checks on the request.
unfoldable pub offerable_request : ℕ → ℕ → Action Request
offerable_request now request_id = do
  request ← or_raise (← gets (find_request request_id)) Error.request_not_found
  raise_if (not request.active) Error.request_not_found
  raise_if request.hidden_by_moderation Error.request_not_found
  raise_if (is_cerrada request.status) Error.request_closed
  let lifecycle = to_lifecycle_input request
  let offerable = is_offerable lifecycle now
  raise_if (not offerable && not (is_visible_to_sellers lifecycle now)) Error.request_not_found
  raise_if (not offerable) Error.request_not_offerable
  pure request

-- The checks on the seller.
unfoldable pub assert_may_offer : Request → ℕ → ℕ → Action (Unit {0})
assert_may_offer request request_id seller_id = do
  offers ← gets (λ db. db.offers)
  seller ← or_raise (← gets (find_user seller_id)) Error.forbidden
  assert_account_active seller
  assert_email_verified seller
  raise_if (not (can_send_offers seller.profile)) Error.seller_profile_incomplete
  raise_if (not (same_country seller.country request.country)) Error.country_mismatch
  raise_if (request.user_id == seller_id) Error.own_request
  raise_if (some_of (is_offer_of request_id seller_id) offers) Error.duplicate_offer

-- The checks on what is proposed.
unfoldable pub assert_proposal : Env → ℕ → Request → ℕ → OfferTerms → Text → Action (Unit {0})
assert_proposal env now request seller_id terms message = do
  assert_image_urls env terms.image_urls seller_id
  raise_if (is_empty message) Error.message_required
  raise_if (ltb offer_message_max_length (length message)) Error.message_too_long
  assert_clean_public_text env message
  assert_valid_money_amount terms.price terms.currency
      (is_some request.terms.budget_period || is_alquiler request.terms.operation)
  assert_offer_spam_limits env now seller_id message
  assert_daily_offer_limit env now seller_id

abbrev snapshot_of : Request → RequestSnapshot
snapshot_of request = record {
  title = request.terms.title;
  budget = request.terms.budget;
  budget_period = request.terms.budget_period;
  requirements = request.terms.requirements;
  location = request.terms.location;
}

unfoldable pub new_offer : ℕ → Request → ℕ → CreateOfferDto → Text → Offer
new_offer now request seller_id dto message = record {
  request_id = dto.request_id;
  seller_id = seller_id;
  terms = record (dto.terms) { message = message };
  snapshot = snapshot_of request;
  status = OfferStatus.pendiente;
  dismissed_by_seller = false;
  hidden_by_moderation = false;
  created_at = now;
  accepted_at = none;
  deal_completed_at = none;
  negotiation_ended_at = none;
  negotiation_ended_by = none;
  buyer_deleted_at = none;
  seller_deleted_at = none;
}

-- `offer.create` under the unique index: P2002 becomes the ConflictException.
unfoldable pub insert_offer : Offer → Action ℕ
insert_offer o db =
    if some_of (is_offer_of o.request_id o.seller_id) db.offers
    then (err Error.duplicate_offer, db)
    else (ok (length db.offers), set_offers (λ os. os ++ o ∷ []) db)

unfoldable pub create : Env → ℕ → ℕ → CreateOfferDto → Action ℕ
create env now seller_id dto = do
  request ← offerable_request now dto.request_id
  assert_may_offer request dto.request_id seller_id
  let message = trim dto.terms.message
  assert_proposal env now request seller_id dto.terms message
  offer_id ← insert_offer (new_offer now request seller_id dto message)
  write (post (Notification.new_offer request.user_id offer_id))
  pure offer_id
