-- ===== src/Market/Deals.antt =====
-- What a completed deal and a closed request look like afterwards.
use buyseekk.Prelude.{
  ℕ, ◌≡◌, ◌≢◌, refl, inl, inr, true, false, none, some, is_some, count_where, count_where-pos,
  count_where-update_where, get_elem?-modify_self, Bool-cases, arith, if◌then◌else◌,
}
use buyseekk.Shared.RequestStatus.{StoredRequestStatus}
use buyseekk.Db.Schema.{OfferStatus, Request, Offer, Db}
use buyseekk.Db.Action.{ok}
use buyseekk.Db.Tables.{
  find_offer, find_request, negotiates_on, completed_on, is_active_negotiation, close_row,
}
use buyseekk.Offers.Negotiation.{DealResponse, complete, complete_commit}
use buyseekk.Requests.Lifecycle.{close, close_commit, end_by_buyer}
use buyseekk.Market.Negotiation.{DbIsValid, deal_row}
use buyseekk.Market.Methods.{complete-IsValid}

complete_found :
    (now offer_id buyer_id : ℕ) (db : Db) {r : DealResponse}
    → (complete now offer_id buyer_id db).0 ≡ ok r
    → (offer : Offer) × (find_offer offer_id db ≡ some offer)
      × (is_some (find_request offer.request_id db) ≡ true)
unfolding complete
complete_found now offer_id buyer_id db h = ground arith

module _ (now offer_id buyer_id : ℕ) (db : Db) {offer : Offer} {r : DealResponse}
    (found : find_offer offer_id db ≡ some offer)
    (h : (complete now offer_id buyer_id db).0 ≡ ok r) where
  completed_offer :
      (o : Offer) × (find_offer offer_id (complete now offer_id buyer_id db).1 ≡ some o)
      × (is_some o.deal_completed_at ≡ true)
  unfolding complete complete_commit
  completed_offer = elim (Bool-cases (is_some offer.deal_completed_at)) [
    | inl before ↦ (offer, ground arith, before)
    | inr first ↦ (
      deal_row now offer,
      ground (arith, get_elem?-modify_self db.offers offer_id (deal_row now) found),
      refl,
    )
  ]

-- On a database that keeps the invariant, a `complete` that is answered leaves the offer accepted, with a deal and a negotiation that was not
-- ended, the only deal of its request; and the request is closed. This holds whether the call
-- completed the deal or found it completed.
pub complete-eq-ok :
    (now offer_id buyer_id : ℕ) (db : Db) {response : DealResponse}
    → DbIsValid db
    → (complete now offer_id buyer_id db).0 ≡ ok response
    → let db' = (complete now offer_id buyer_id db).1 in
      (o : Offer) × (find_offer offer_id db' ≡ some o)
      × (is_some o.deal_completed_at ≡ true)
      × (o.status ≡ OfferStatus.aceptada)
      × (o.negotiation_ended_at ≡ none)
      × (count_where (completed_on o.request_id) db'.offers ≡ 1)
      × ((r : Request)
          → find_request o.request_id db' ≡ some r
          → r.status ≡ StoredRequestStatus.cerrada)
unfolding completed_on
complete-eq-ok now offer_id buyer_id db v h =
    let db' = (complete now offer_id buyer_id db).1 in
    let v' = complete-IsValid now offer_id buyer_id db v in
    let (offer, found, _) = complete_found now offer_id buyer_id db h in
    let (o, o_found, deal) = completed_offer now offer_id buyer_id db found h in
    let (accepted, not_ended) = (v'.sound offer_id o_found).deal_accepted deal in
    let here : completed_on o.request_id o ≡ true = ground (arith, deal) in
    let some_deal = count_where-pos (completed_on o.request_id) db'.offers offer_id o_found here in
    let one = v'.one_deal o.request_id in
    (
      o,
      o_found,
      deal,
      accepted,
      not_ended,
      omega arith,
      λ r r_found. v'.deal_closed o.request_id r_found (omega arith),
    )

close_found :
    (now user_id id : ℕ) (db : Db)
    → (close now user_id id db).0 ≡ ok tt
    → (r : Request) × (find_request id db ≡ some r) × (r.user_id ≡ user_id) × (r.active ≡ true)
unfolding close
close_found now user_id id db h = ground arith

closed_ends :
    (now id : ℕ) (o : Offer)
    → negotiates_on id (if negotiates_on id o then end_by_buyer now o else o) ≡ false
unfolding negotiates_on is_active_negotiation
closed_ends now id o = ground arith

module _ (now user_id id : ℕ) (db : Db) {r : Request} (found : find_request id db ≡ some r)
    (h : (close now user_id id db).0 ≡ ok tt) where
  close_commits :
      r.status ≢ StoredRequestStatus.cerrada
      → ((close now user_id id db).1.offers ≡ (close_commit now id db).offers)
        × ((close now user_id id db).1.requests ≡ (close_commit now id db).requests)
  unfolding close
  close_commits unclosed = ground arith

  close_keeps : r.status ≡ StoredRequestStatus.cerrada → (close now user_id id db).1 ≡ db
  unfolding close
  close_keeps closed = ground arith

-- A `close` of a request that is not yet closed leaves it closed and not paused, with no open
-- negotiation; and a `close` of a closed request changes nothing.
pub close-eq-ok :
    (now user_id id : ℕ) (db : Db) {r : Request}
    → find_request id db ≡ some r
    → (close now user_id id db).0 ≡ ok tt
    → let db' = (close now user_id id db).1 in
      (r.status ≢ StoredRequestStatus.cerrada
        → (find_request id db' ≡ some (close_row now r))
          × (count_where (negotiates_on id) db'.offers ≡ 0))
      × (r.status ≡ StoredRequestStatus.cerrada → db' ≡ db)
unfolding close_commit
close-eq-ok now user_id id db {r} found h = (
  λ unclosed.
      let (offers, requests) = close_commits now user_id id db found h unclosed in
      (
        rw requests (get_elem?-modify_self db.requests id (close_row now) found),
        rw offers (
            count_where-update_where (negotiates_on id) (negotiates_on id) (end_by_buyer now)
              (closed_ends now id) db.offers),
      ),
  close_keeps now user_id id db found h,
)
