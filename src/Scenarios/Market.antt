-- ===== src/Scenarios/Market.antt =====
-- Runs of the services on the small database.
use buyseekk.Prelude.{
  ℕ, ◌-◌, ◌≤◌, ◌<◌, ◌≡◌, ◌≢◌, ◌↔◌, ◌⊎◌, refl, inr, true, false, none, some, [], ◌∷◌, ◌++◌, trim,
  trim_start, is_space, is_some, is_empty, length, count_where, some_of, modify,
}
use buyseekk.Shared.Limits.{
  offer_message_max_length, max_active_requests, max_offers_per_hour, hour_ms,
}
use buyseekk.Shared.RequestStatus.{StoredRequestStatus, is_offerable}
use buyseekk.Shared.UserMode.{is_buyer_capable_role, can_send_offers, has_text}
use buyseekk.Shared.Subscription.{resolve_plus_entitlement}
use buyseekk.Shared.Money.{is_valid_money_amount}
use buyseekk.Db.Schema.{OfferStatus, Offer, Request, User, Chat, Db}
use buyseekk.Db.Action.{ok, transaction}
use buyseekk.Db.Tables.{
  chat_of_offer, completed_on, negotiates_on, find_offer, find_request, find_user,
  can_remove_offer_from_listing, touch, start_negotiating, close_row,
}
use buyseekk.Requests.Visibility.{to_lifecycle_input}
use buyseekk.Access.{
  validate_image_urls, assert_no_duplicate_request, offers_since, assert_account_active,
  assert_email_verified, assert_image_urls, assert_clean_public_text, assert_valid_money_amount,
  assert_offer_spam_limits, assert_daily_offer_limit,
}
use buyseekk.Offers.Create.{
  create, offerable_request, assert_may_offer, assert_proposal, insert_offer, is_offer_of,
  new_offer,
}
use buyseekk.Offers.Create.Laws.{IsOpenRequest, MayOffer, created, create-eq-ok}
use buyseekk.Offers.Negotiation.{
  accept, accept_commit, complete, complete_commit, DealResponse, sync_request_negotiation_status,
}
use buyseekk.Offers.Negotiation.Repeats.{accept-repeated}
use buyseekk.Offers.Listing.{remove_from_listing}
use buyseekk.Requests.Publish.{
  create_request, new_request, occupies_place, assert_may_publish, assert_place, assert_car_terms,
  insert_within_limit,
}
use buyseekk.Requests.Publish.Laws.{create_request-eq-ok}
use buyseekk.Requests.Edit.{
  update, edited_row, edited_terms, has_pending_on, edit, editable_request, assert_new_content,
  assert_not_similar, assert_new_budget, assert_new_place, assert_edited_car,
}
use buyseekk.Requests.Edit.Laws.{SameStructure, update-eq-ok}
use buyseekk.Requests.Lifecycle.{close, close_commit, own_request, renew}
use buyseekk.Requests.Lifecycle.Renewal.{renew-paused_negotiation}
use buyseekk.Chats.{
  Side, partner_role, send, normalize_client_message_id, has_client_key, max_chat_message_length,
  count_unread_for_chat, mark_chat_read,
}
use buyseekk.Chats.Sending.{MaySend, send-eq-ok}
use buyseekk.Chats.Retrying.{send-repeated}
use buyseekk.Chats.Reading.{is_later_from, count_unread-mark_chat_read}
use buyseekk.Market.Negotiation.{DbIsValid}
use buyseekk.Market.Methods.{accept-IsValid}
use buyseekk.Market.Deals.{complete-eq-ok, close-eq-ok}
use buyseekk.Market.Listing.{remove_from_listing_iff}
use buyseekk.Market.Runs.{Call, run_all, run_all-IsValid}
use buyseekk.Market.History.{Grown}
use buyseekk.Market.Interleaving.{Run}
use buyseekk.Market.Interleaving.Safety.{DealsAreSound, run-DealsAreSound, run-Grown}
use buyseekk.Scenarios.{
  word, start_db, offered_db, offered_db-DbIsValid, plain_env, any_catalogue, word_request,
  word_edit, bike_dto, hello, bike_offer, bike_request,
}

abbrev accepted_db : Db
accepted_db = (accept 20 0 0 offered_db).1

accepted_db-DbIsValid : DbIsValid accepted_db
accepted_db-DbIsValid = accept-IsValid 20 0 0 offered_db offered_db-DbIsValid

accepted_ok : (accept 20 0 0 offered_db).0 ≡ ok 0
unfolding accept accept_commit chat_of_offer
accepted_ok = refl

accept-repeated_example : accept 30 0 0 accepted_db ≡ (ok 0, accepted_db)
accept-repeated_example = accept-repeated 20 30 0 0 offered_db accepted_ok

abbrev bike_deal : DealResponse
bike_deal = record {
  chat_id = some 0;
  request_id = 0;
  request_status = StoredRequestStatus.cerrada;
}

completed_ok : (complete 30 0 0 accepted_db).0 ≡ ok bike_deal
unfolding accept accept_commit chat_of_offer complete complete_commit completed_on
completed_ok = refl

complete-eq-ok_example :
    let db' = (complete 30 0 0 accepted_db).1 in
    (o : Offer) × (find_offer 0 db' ≡ some o)
    × (is_some o.deal_completed_at ≡ true)
    × (o.status ≡ OfferStatus.aceptada)
    × (o.negotiation_ended_at ≡ none)
    × (count_where (completed_on o.request_id) db'.offers ≡ 1)
    × ((r : Request)
        → find_request o.request_id db' ≡ some r
        → r.status ≡ StoredRequestStatus.cerrada)
complete-eq-ok_example = complete-eq-ok 30 0 0 accepted_db accepted_db-DbIsValid completed_ok

created_ok : (create plain_env 10 1 bike_dto start_db).0 ≡ ok 0
unfolding create offerable_request assert_may_offer assert_proposal insert_offer is_offer_of
    new_offer assert_account_active assert_email_verified assert_image_urls assert_clean_public_text
    assert_valid_money_amount assert_offer_spam_limits assert_daily_offer_limit offers_since
    is_offerable to_lifecycle_input can_send_offers has_text trim is_valid_money_amount
    resolve_plus_entitlement
created_ok = refl

create-eq-ok_example :
    (request : Request) × (seller : User) × IsOpenRequest 10 0 request start_db
    × MayOffer request 0 1 seller start_db
    × (0 ≡ length start_db.offers)
    × ((create plain_env 10 1 bike_dto start_db).1.offers
        ≡ start_db.offers ++ created 10 request 1 bike_dto ∷ [])
    × (is_empty (trim bike_dto.terms.message) ≡ false)
    × (length (trim bike_dto.terms.message) ≤ offer_message_max_length)
    × (count_where (offers_since 1 (10 - hour_ms)) start_db.offers < max_offers_per_hour)
create-eq-ok_example = create-eq-ok plain_env 10 1 bike_dto start_db created_ok

closed_ok : (close 30 0 0 accepted_db).0 ≡ ok tt
unfolding accept accept_commit chat_of_offer close own_request close_commit
closed_ok = refl

abbrev negotiated_request : Request
negotiated_request = touch 20 (start_negotiating bike_request)

negotiated_found : find_request 0 accepted_db ≡ some negotiated_request
unfolding accept accept_commit chat_of_offer
negotiated_found = refl

close-eq-ok_example :
    let db' = (close 30 0 0 accepted_db).1 in
    (negotiated_request.status ≢ StoredRequestStatus.cerrada
      → (find_request 0 db' ≡ some (close_row 30 negotiated_request))
        × (count_where (negotiates_on 0) db'.offers ≡ 0))
    × (negotiated_request.status ≡ StoredRequestStatus.cerrada → db' ≡ accepted_db)
close-eq-ok_example = close-eq-ok 30 0 0 accepted_db negotiated_found closed_ok

abbrev accepted_offer : Offer
accepted_offer = record bike_offer { status = OfferStatus.aceptada; accepted_at = some 20 }

accepted_found : find_offer 0 accepted_db ≡ some accepted_offer
unfolding accept accept_commit chat_of_offer
accepted_found = refl

remove_from_listing_iff_example : ((remove_from_listing 30 0 1 accepted_db).0 ≡ ok tt) ↔ (
    (can_remove_offer_from_listing accepted_offer ≡ true)
    ⊎ ((accepted_offer.status ≡ OfferStatus.rechazada) × (accepted_offer.seller_id ≡ 1)))
remove_from_listing_iff_example =
    remove_from_listing_iff 30 0 1 accepted_db accepted_db-DbIsValid accepted_found negotiated_found
      (inr refl)

sent_ok : (send 40 0 1 hello accepted_db).0 ≡ ok 2
unfolding accept accept_commit chat_of_offer send normalize_client_message_id has_client_key trim
    trim_start
sent_ok = refl

hello_key : normalize_client_message_id hello.client_message_id ≡ some word
unfolding normalize_client_message_id trim trim_start is_space
hello_key = refl

send-repeated_example :
    let db' = (send 40 0 1 hello accepted_db).1 in send 50 0 1 hello db' ≡ (ok 2, db')
send-repeated_example = send-repeated 40 50 0 1 hello accepted_db hello_key sent_ok

send-eq-ok_example :
    (is_empty (trim hello.text) ≡ false)
    × (length (trim hello.text) ≤ max_chat_message_length)
    × ((chat : Chat) × (offer : Offer) × (request : Request) × (user : User) × (role : Side)
        × MaySend 0 1 accepted_db chat offer request user role)
send-eq-ok_example = send-eq-ok 40 0 1 hello accepted_db sent_ok

count_unread-mark_chat_read_example :
    (count_unread_for_chat 0 0 Side.buyer (mark_chat_read 30 0 0 accepted_db)
      ≡ count_where (is_later_from 0 (partner_role Side.buyer) 30) accepted_db.messages)
    × ((chat user : ℕ) (side : Side)
        → (chat ≢ 0) ⊎ (user ≢ 0)
        → count_unread_for_chat chat user side (mark_chat_read 30 0 0 accepted_db)
          ≡ count_unread_for_chat chat user side accepted_db)
count_unread-mark_chat_read_example = count_unread-mark_chat_read 30 0 0 Side.buyer accepted_db

published_ok : (create_request plain_env any_catalogue 100 1 word_request start_db).0 ≡ ok 1
unfolding create_request assert_may_publish is_buyer_capable_role assert_account_active
    assert_email_verified validate_image_urls assert_clean_public_text trim
    assert_no_duplicate_request assert_valid_money_amount is_valid_money_amount assert_place
    assert_car_terms insert_within_limit occupies_place
published_ok = refl

create_request-eq-ok_example :
    let db' = (create_request plain_env any_catalogue 100 1 word_request start_db).1 in
    (user : User) × (find_user 1 start_db ≡ some user)
    × (is_buyer_capable_role user.profile.role ≡ true)
    × (user.blocked ≡ false)
    × (user.suspended ≡ false)
    × (user.email_verified ≡ true)
    × (1 ≡ length start_db.requests)
    × (db'.requests
        ≡ start_db.requests ++ new_request any_catalogue 100 1 user.country word_request ∷ [])
    × (count_where (occupies_place 100 1) start_db.requests < max_active_requests)
    × (count_where (occupies_place 100 1) db'.requests ≤ max_active_requests)
create_request-eq-ok_example =
    create_request-eq-ok plain_env any_catalogue 100 1 word_request start_db published_ok

edited_ok : (update plain_env any_catalogue 30 0 0 word_edit offered_db).0 ≡ ok tt
unfolding update edit editable_request is_buyer_capable_role negotiates_on assert_new_content
    validate_image_urls assert_clean_public_text trim assert_not_similar assert_new_budget
    assert_valid_money_amount is_valid_money_amount assert_new_place assert_edited_car
edited_ok = refl

update-eq-ok_example :
    let db' = (update plain_env any_catalogue 30 0 0 word_edit offered_db).1 in
    (user : User) × (req : Request) × (find_request 0 offered_db ≡ some req)
    × (req.user_id ≡ 0)
    × (req.active ≡ true)
    × (req.status ≡ StoredRequestStatus.activa)
    × (some_of (negotiates_on 0) offered_db.offers ≡ false)
    × (db'.requests
        ≡ modify offered_db.requests 0
            (edited_row 30 (edited_terms any_catalogue user.country word_edit req)))
    × (some_of (has_pending_on 0) offered_db.offers ≡ true
        → SameStructure (edited_terms any_catalogue user.country word_edit req) req.terms)
update-eq-ok_example = update-eq-ok plain_env any_catalogue 30 0 0 word_edit offered_db edited_ok

-- The request of a buyer who paused it while the only negotiation on it was ended.
abbrev paused_request : Request
paused_request = record bike_request {
  status = StoredRequestStatus.negociando;
  paused_at = some 25;
}

abbrev paused_db : Db
paused_db = record start_db { requests = paused_request ∷ [] }

renew-paused_negotiation_example :
    let db' = (renew 30 0 0 (sync_request_negotiation_status 0 paused_db)).1 in
    (r' : Request) × (find_request 0 db' ≡ some r')
    × (r'.status ≡ StoredRequestStatus.negociando)
    × (r'.paused_at ≡ none)
    × (count_where (negotiates_on 0) db'.offers ≡ 0)
renew-paused_negotiation_example =
    renew-paused_negotiation 30 0 0 paused_db refl refl refl refl refl refl

-- Two buyers' calls that both found the offer pending: the second acts on the state after the first.
abbrev two_accepts : Db
two_accepts =
    (transaction (accept_commit 21 0 bike_offer)
      (transaction (accept_commit 20 0 bike_offer) offered_db).1).1

two_accepts_run : Run offered_db two_accepts
two_accepts_run =
    Run.accepts {seen = offered_db} Run.idle
      (Run.accepts {seen = offered_db} Run.idle Run.idle 20 0 bike_offer refl) 21 0 bike_offer refl

run-DealsAreSound_example : DealsAreSound two_accepts.offers
run-DealsAreSound_example =
    run-DealsAreSound offered_db two_accepts two_accepts_run
      (record { sound = offered_db-DbIsValid.sound; one_deal = offered_db-DbIsValid.one_deal })

run-Grown_example : Grown offered_db.offers two_accepts.offers
run-Grown_example = run-Grown offered_db two_accepts two_accepts_run

run_all-IsValid_example : DbIsValid (
    run_all plain_env any_catalogue
      ((20, Call.accept_offer 0 0) ∷ (30, Call.complete_deal 0 0) ∷ [])
      offered_db)
run_all-IsValid_example =
    run_all-IsValid plain_env any_catalogue
      ((20, Call.accept_offer 0 0) ∷ (30, Call.complete_deal 0 0) ∷ []) offered_db
      offered_db-DbIsValid
