-- ===== src/Requests/Lifecycle.antt =====
-- The buyer's moves on a request in apps/api/src/requests/requests.service.ts: close, renew, pause
-- and remove, and what a seller may open (getOne, getPublicOne). A method that answers with the
-- formatted row leaves the answer out; it is a function of the row.
pub mod Renewal
use buyseekk.Prelude.{
  ℕ, Bool, true, false, Option, none, some, ◌==◌, ltb, ◌&&◌, ◌||◌, not, is_some, modify,
  count_where, update_where, some_of, if◌then◌else◌,
}
use buyseekk.Shared.RequestStatus.{StoredRequestStatus, is_cerrada, is_visible_to_sellers}
use buyseekk.Shared.UserMode.{UserRole, RequestCategory}
use buyseekk.Db.Schema.{
  Country, NegotiationEndedBy, OfferStatus, Request, Offer, Notification, SavedRequest, Db,
}
use buyseekk.Db.Errors.{Error}
use buyseekk.Db.Action.{
  Action, pure, raise, gets, or_raise, transaction, raise_if, write, when, choose, ◌>>=◌, ◌>>◌,
}
use buyseekk.Db.Tables.{
  negotiates_on, find_request, find_user, set_requests, post, touch, close_row,
}
use buyseekk.Requests.Visibility.{to_lifecycle_input, same_country}

-- The guards that `close`, `renew` and `pause` begin with.
unfoldable pub own_request : ℕ → ℕ → Action Request
own_request user_id id = do
  req ← or_raise (← gets (find_request id)) Error.request_not_found
  raise_if (not req.active) Error.request_not_found
  raise_if (not (req.user_id == user_id)) Error.forbidden
  pure req

abbrev pub end_by_buyer : ℕ → Offer → Offer
end_by_buyer now o = record o {
  negotiation_ended_at = some now;
  negotiation_ended_by = some NegotiationEndedBy.buyer;
}

-- The transaction of `close`: it ends every open negotiation and closes the request.
unfoldable pub close_commit : ℕ → ℕ → Db → Db
close_commit now id db = record db {
  offers = update_where (negotiates_on id) (end_by_buyer now) db.offers;
  requests = modify db.requests id (close_row now);
}

unfoldable pub close : ℕ → ℕ → ℕ → Action (Unit {0})
unfolding own_request
close now user_id id = do
  req ← own_request user_id id
  choose (is_cerrada req.status) (pure tt) (do
    write (close_commit now id)
    buyer ← gets (find_user user_id)
    when (is_some buyer) (write (post (Notification.request_closed user_id id))))

abbrev pub renew_row : ℕ → Request → Request
renew_row now r = record (touch now r) { paused_at = none }

unfoldable pub renew : ℕ → ℕ → ℕ → Action (Unit {0})
unfolding own_request
renew now user_id id = do
  req ← own_request user_id id
  raise_if (is_cerrada req.status) Error.request_closed
  write (set_requests (λ rs. modify rs id (renew_row now)))

abbrev pub pause_row : ℕ → Request → Request
pause_row now r = record r { paused_at = some now }

unfoldable pub pause : ℕ → ℕ → ℕ → Action (Unit {0})
unfolding own_request
pause now user_id id = do
  req ← own_request user_id id
  raise_if (is_cerrada req.status) Error.request_closed
  when (not (is_some req.paused_at)) (write (set_requests (λ rs. modify rs id (pause_row now))))

abbrev pub deactivate : Request → Request
deactivate r = record r { active = false }

unfoldable pub remove : ℕ → ℕ → Action (Unit {0})
remove user_id id = do
  req ← or_raise (← gets (find_request id)) Error.request_not_found
  raise_if (not (req.user_id == user_id)) Error.forbidden
  active_negotiations ← gets (λ db. count_where (negotiates_on id) db.offers)
  raise_if (ltb 0 active_negotiations && not (is_cerrada req.status)) Error.active_negotiations
  write (set_requests (λ rs. modify rs id deactivate))

-- The viewer of `getOne`.
pub record Viewer : Type 0 where
  pub id : ℕ
  pub country : Country
  pub role : UserRole
  pub seller_category : Option RequestCategory

abbrev same_category : RequestCategory → RequestCategory → Bool
same_category RequestCategory.autos RequestCategory.autos = true
same_category RequestCategory.inmobiliaria RequestCategory.inmobiliaria = true
same_category _ _ = false

abbrev is_buyer_role : UserRole → Bool
is_buyer_role UserRole.buyer = true
is_buyer_role _ = false

abbrev pub saved_by : ℕ → ℕ → SavedRequest → Bool
saved_by seller_id request_id s = s.seller_id == seller_id && s.request_id == request_id

-- `getOne` with a viewer: the row that the response is formatted from.
unfoldable pub get_one : ℕ → ℕ → Viewer → Action Request
get_one now id viewer = do
  req ← or_raise (← gets (find_request id)) Error.request_not_found
  raise_if (not req.active) Error.request_not_found
  raise_if (req.hidden_by_moderation && not (req.user_id == viewer.id)) Error.request_not_found
  saved ← gets (λ db. some_of (saved_by viewer.id id) db.saved_requests)
  raise_if (not (is_visible_to_sellers (to_lifecycle_input req) now) && not saved)
      Error.request_not_found
  raise_if (not (is_buyer_role viewer.role) && not (same_country req.country viewer.country))
      Error.request_not_found
  raise_if
      (elim viewer.seller_category [ none ↦ false | some c ↦ not (same_category req.category c) ])
      Error.request_not_found
  raise_if (req.user_id == viewer.id) Error.request_not_found
  pure req

-- `getPublicOne`; `launch_country` is the setting that `getLaunchCountry` reads.
unfoldable pub get_public_one : Option Country → ℕ → ℕ → Action Request
get_public_one launch_country now id = do
  req ← or_raise (← gets (find_request id)) Error.request_not_found
  raise_if
      (not req.active
        || req.hidden_by_moderation
        || not (is_visible_to_sellers (to_lifecycle_input req) now))
      Error.request_not_found
  raise_if (elim launch_country [ none ↦ false | some c ↦ not (same_country req.country c) ])
      Error.request_not_found
  pure req
