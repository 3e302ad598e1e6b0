-- ===== src/Market/Runs.antt =====
-- Sequences of service calls, each run to its end before the next begins, whatever they answer.
use buyseekk.Prelude.{ℕ, List, [], ◌∷◌}
use buyseekk.Db.Schema.{Db}
use buyseekk.Access.{Env}
use buyseekk.Offers.Negotiation.{accept, reject, complete, end_negotiation}
use buyseekk.Offers.Create.{CreateOfferDto, create}
use buyseekk.Offers.Listing.{dismiss, remove_from_listing}
use buyseekk.Requests.Lifecycle.{close, renew, pause, remove}
use buyseekk.Requests.Publish.{Catalogue}
use buyseekk.Requests.Edit.{UpdateRequestDto, update}
use buyseekk.Chats.{SendMessageDto, send, join}
use buyseekk.Market.Negotiation.{DbIsValid, reject-IsValid}
use buyseekk.Market.Methods.{
  Unchanged-IsValid, accept-IsValid, complete-IsValid, end_negotiation-IsValid,
}
use buyseekk.Market.Moves.{
  update-IsValid, close-IsValid, renew-IsValid, pause-IsValid, remove-IsValid, dismiss-IsValid,
  remove_from_listing-IsValid,
}
use buyseekk.Market.Calls.{create-IsValid, send-IsValid, join_path}

-- The methods of the offers, requests and chats services that change an offer, a request that exists
-- or a chat.
pub data Call : Type 0 where
  create_offer : (seller_id : ℕ) → CreateOfferDto → Call
  accept_offer reject_offer complete_deal : (offer_id buyer_id : ℕ) → Call
  end_deal : (offer_id user_id : ℕ) → Call
  dismiss_offer : (offer_id seller_id : ℕ) → Call
  remove_offer : (offer_id user_id : ℕ) → Call
  close_request renew_request pause_request remove_request : (user_id id : ℕ) → Call
  update_request : (user_id id : ℕ) → UpdateRequestDto → Call
  send_message : (chat_id user_id : ℕ) → SendMessageDto → Call
  join_chat : (chat_id user_id : ℕ) → Call

module _ (env : Env) (cat : Catalogue) where
  -- A call at a time `now`.
  unfoldable pub run : ℕ → Call → Db → Db
  run now (Call.create_offer seller_id dto) db = (create env now seller_id dto db).1
  run now (Call.accept_offer offer_id buyer_id) db = (accept now offer_id buyer_id db).1
  run now (Call.reject_offer offer_id buyer_id) db = (reject now offer_id buyer_id db).1
  run now (Call.complete_deal offer_id buyer_id) db = (complete now offer_id buyer_id db).1
  run now (Call.end_deal offer_id user_id) db = (end_negotiation now offer_id user_id db).1
  run now (Call.dismiss_offer offer_id seller_id) db = (dismiss offer_id seller_id db).1
  run now (Call.remove_offer offer_id user_id) db = (remove_from_listing now offer_id user_id db).1
  run now (Call.close_request user_id id) db = (close now user_id id db).1
  run now (Call.renew_request user_id id) db = (renew now user_id id db).1
  run now (Call.pause_request user_id id) db = (pause now user_id id db).1
  run now (Call.remove_request user_id id) db = (remove user_id id db).1
  run now (Call.update_request user_id id dto) db = (update env cat now user_id id dto db).1
  run now (Call.send_message chat_id user_id dto) db = (send now chat_id user_id dto db).1
  run now (Call.join_chat chat_id user_id) db = (join now chat_id user_id db).1

  pub run-IsValid : (now : ℕ) (c : Call) (db : Db) → DbIsValid db → DbIsValid (run now c db)
  unfolding run
  run-IsValid now (Call.create_offer s dto) db v = create-IsValid env now s dto db v
  run-IsValid now (Call.accept_offer o b) db v = accept-IsValid now o b db v
  run-IsValid now (Call.reject_offer o b) db v = reject-IsValid now o b db v
  run-IsValid now (Call.complete_deal o b) db v = complete-IsValid now o b db v
  run-IsValid now (Call.end_deal o u) db v = end_negotiation-IsValid now o u db v
  run-IsValid now (Call.dismiss_offer o s) db v = dismiss-IsValid o s db v
  run-IsValid now (Call.remove_offer o u) db v = remove_from_listing-IsValid now o u db v
  run-IsValid now (Call.close_request u id) db v = close-IsValid now u id db v
  run-IsValid now (Call.renew_request u id) db v = renew-IsValid now u id db v
  run-IsValid now (Call.pause_request u id) db v = pause-IsValid now u id db v
  run-IsValid now (Call.remove_request u id) db v = remove-IsValid u id db v
  run-IsValid now (Call.update_request u id dto) db v = update-IsValid env cat now u id dto db v
  run-IsValid now (Call.send_message c u dto) db v = send-IsValid now c u dto db v
  run-IsValid now (Call.join_chat c u) db v =
      Unchanged-IsValid db (join now c u db).1 (join_path now c u db) v

  -- Timed calls, one after the other.
  unfoldable pub run_all : List (ℕ × Call) → Db → Db
  run_all [] db = db
  run_all ((now, c) ∷ cs) db = run_all cs (run now c db)

  -- Calls that run one after the other, at any times, keep the invariant: of a request at most one
  -- deal is completed, it is closed then, no request with status ACTIVA has an open negotiation, and
  -- deals and ended negotiations belong to accepted offers.
  pub run_all-IsValid :
      (calls : List (ℕ × Call)) (db : Db) → DbIsValid db → DbIsValid (run_all calls db)
  unfolding run_all
  run_all-IsValid [] db v = v
  run_all-IsValid ((now, c) ∷ cs) db v = run_all-IsValid cs (run now c db) (run-IsValid now c db v)
