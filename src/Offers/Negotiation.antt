-- ===== src/Offers/Negotiation.antt =====
-- The buyer's and the seller's decisions on an offer: accept, reject, complete and end. Each method
-- is split where its transaction begins: what it reads before is a check on an earlier state.
pub mod Repeats
use buyseekk.Prelude.{
  ℕ, Bool, true, false, Option, none, some, List, [], ◌∷◌, ◌++◌, ◌==◌, ltb, leb, ◌&&◌, ◌||◌, not,
  is_some, is_none, get_elem?, modify, count_where, is_empty, trim, if◌then◌else◌, or_else,
}
use buyseekk.Shared.RequestStatus.{StoredRequestStatus, is_cerrada, is_activa, is_negociando}
use buyseekk.Db.Schema.{
  OfferStatus, NegotiationEndedBy, MessageRole, MessageText, Message, Request, Offer, User,
  Notification, Db,
}
use buyseekk.Db.Errors.{Error}
use buyseekk.Db.Action.{
  Result, ok, err, Action, pure, raise, gets, or_raise, transaction, raise_if, write, when, choose,
  ◌>>=◌, ◌>>◌,
}
use buyseekk.Db.Tables.{
  is_pendiente, is_aceptada, is_active_negotiation, negotiates_on, completed_on, chat_of_offer,
  find_offer, find_request, find_user, update_offer, set_requests, post, start_negotiating, touch,
  close_row, upsert_chat, some_other,
}

-- `syncRequestNegotiationStatus`, as the requests after it.
unfoldable pub synced_requests : ℕ → List Offer → List Request → List Request
synced_requests request_id offers requests = elim (get_elem? requests request_id) [
  | none ↦ requests
  | some req ↦
      if not req.active || is_cerrada req.status
      then requests
      else if ltb 0 (count_where (negotiates_on request_id) offers)
      then modify requests request_id start_negotiating
      else if is_negociando req.status && is_none req.paused_at
      then modify requests request_id (λ r. record r { status = StoredRequestStatus.activa })
      else requests
]

unfoldable pub sync_request_negotiation_status : ℕ → Db → Db
sync_request_negotiation_status request_id db =
    set_requests (synced_requests request_id db.offers) db

-- `sellerGreeting`
unfoldable pub seller_greeting : User → MessageText
seller_greeting seller =
    let custom = trim (or_else seller.default_accept_message []) in
    if is_empty custom
    then MessageText.default_greeting seller.locale
    else MessageText.written custom

abbrev accept_messages : ℕ → Offer → User → ℕ → Bool → List Message
accept_messages now offer seller chat_id is_new =
    if is_new
    then record {
      chat_id = chat_id;
      from_role = MessageRole.system;
      text = MessageText.offer_accepted offer.snapshot.title offer.terms.price;
      client_message_id = none;
      created_at = now;
    }
      ∷ record {
        chat_id = chat_id;
        from_role = MessageRole.seller;
        text = seller_greeting seller;
        client_message_id = none;
        created_at = now;
      }
      ∷ []
    else []

-- The transaction of `accept`: the chat's id, and whether this call accepted the offer.
unfoldable pub accept_commit : ℕ → ℕ → Offer → Action (ℕ × Bool)
accept_commit now offer_id offer = do
  did_transition ←
      update_offer offer_id (λ o. is_pendiente o.status)
        (λ o. record o { status = OfferStatus.aceptada; accepted_at = some now })
  current ← or_raise (← gets (find_offer offer_id)) Error.offer_processed
  raise_if (not did_transition && not (is_aceptada current.status)) Error.offer_processed
  seller ← or_raise (← gets (find_user current.seller_id)) Error.broken_reference
  chat_id ← upsert_chat now offer_id (accept_messages now offer seller)
  when did_transition (
      write
        (set_requests (λ rs. modify rs offer.request_id (λ r. touch now (start_negotiating r)))))
  pure (chat_id, did_transition)

unfoldable pub accept : ℕ → ℕ → ℕ → Action ℕ
accept now offer_id buyer_id = do
  offer ← or_raise (← gets (find_offer offer_id)) Error.offer_not_found
  request ← or_raise (← gets (find_request offer.request_id)) Error.broken_reference
  raise_if (not (request.user_id == buyer_id)) Error.forbidden
  raise_if (not request.active) Error.offer_not_found
  raise_if (is_cerrada request.status && not (is_aceptada offer.status)) Error.request_closed
  (chat_id, did_transition) ← transaction (accept_commit now offer_id offer)
  when did_transition (write (post (Notification.offer_accepted offer.seller_id offer_id)))
  pure chat_id

unfoldable pub reject : ℕ → ℕ → ℕ → Action (Unit {0})
reject now offer_id buyer_id = do
  offer ← or_raise (← gets (find_offer offer_id)) Error.offer_not_found
  request ← or_raise (← gets (find_request offer.request_id)) Error.broken_reference
  raise_if (not (request.user_id == buyer_id)) Error.forbidden
  updated ←
      update_offer offer_id (λ o. is_pendiente o.status)
        (λ o. record o { status = OfferStatus.rechazada })
  raise_if (not updated) Error.offer_processed
  write (set_requests (λ rs. modify rs offer.request_id (touch now)))
  write (post (Notification.offer_rejected offer.seller_id offer_id))

-- `requestId`, `requestStatus` and `chatId` of the responses of `complete` and `endNegotiation`.
pub record DealResponse : Type 0 where
  pub chat_id : Option ℕ
  pub request_id : ℕ
  pub request_status : StoredRequestStatus

-- The unique index "Offer_requestId_completed_unique" (migration 20260818030000): a second completed
-- deal on a request fails with P2002, which `complete` turns into a ConflictException.
abbrev completed_index_violated : ℕ → Db → Bool
completed_index_violated offer_id db = elim (find_offer offer_id db) [
  | none ↦ false
  | some o ↦ is_active_negotiation o && ltb 0 (count_where (completed_on o.request_id) db.offers)
]

-- The transaction of `complete`: whether this call completed the deal.
unfoldable pub complete_commit : ℕ → ℕ → ℕ → Action Bool
unfolding is_active_negotiation
complete_commit now offer_id request_id = do
  raise_if (← gets (completed_index_violated offer_id)) Error.deal_conflict
  done ←
      update_offer offer_id is_active_negotiation (λ o. record o { deal_completed_at = some now })
  current ← or_raise (← gets (find_offer offer_id)) Error.deal_failed
  raise_if (not done && is_some current.negotiation_ended_at) Error.negotiation_already_ended
  raise_if (not done && is_none current.deal_completed_at) Error.deal_failed
  when done (write (set_requests (λ rs. modify rs request_id (close_row now))))
  pure done

unfoldable pub complete : ℕ → ℕ → ℕ → Action DealResponse
complete now offer_id buyer_id = do
  offer ← or_raise (← gets (find_offer offer_id)) Error.offer_not_found
  request ← or_raise (← gets (find_request offer.request_id)) Error.broken_reference
  raise_if (not (request.user_id == buyer_id)) Error.forbidden
  raise_if (not request.active) Error.offer_not_found
  raise_if (not (is_aceptada offer.status)) Error.not_accepted_deal
  chat ← or_raise (← gets (λ db. chat_of_offer offer_id db.chats)) Error.chat_required
  let response = λ (status : StoredRequestStatus).
      let r : DealResponse = record {
        chat_id = some chat.0;
        request_id = offer.request_id;
        request_status = status;
      } in
      r
  choose (is_some offer.deal_completed_at) (pure (response request.status)) (do
    raise_if (is_some offer.negotiation_ended_at) Error.negotiation_already_ended
    raise_if (← gets (λ db. some_other offer_id (completed_on offer.request_id) 0 db.offers))
        Error.deal_with_other_seller
    raise_if (is_cerrada request.status) Error.request_already_closed
    done ← transaction (complete_commit now offer_id offer.request_id)
    when done (write (post (Notification.deal_completed offer.seller_id chat.0 offer_id)))
    pure (response StoredRequestStatus.cerrada))

abbrev ended_message : ℕ → NegotiationEndedBy → ℕ → Bool → List Message
ended_message now by chat_id is_new =
    record {
      chat_id = chat_id;
      from_role = MessageRole.system;
      text = MessageText.negotiation_ended by;
      client_message_id = none;
      created_at = now;
    }
    ∷ []

-- The transaction of `endNegotiation`: whether this call ended it, and the chat's id.
unfoldable pub end_commit : ℕ → ℕ → ℕ → NegotiationEndedBy → Action (Bool × Option ℕ)
unfolding is_active_negotiation sync_request_negotiation_status
end_commit now offer_id request_id by = do
  ended ←
      update_offer offer_id is_active_negotiation
        (λ o. record o { negotiation_ended_at = some now; negotiation_ended_by = some by })
  current ← or_raise (← gets (find_offer offer_id)) Error.offer_not_found
  chat ← gets (λ db. chat_of_offer offer_id db.chats)
  raise_if (not ended && is_some current.deal_completed_at) Error.deal_already_completed
  raise_if (not ended && is_none current.negotiation_ended_at) Error.end_failed
  choose ended
      (do
        chat_id ← upsert_chat now offer_id (ended_message now by)
        write (sync_request_negotiation_status request_id)
        pure (true, some chat_id))
      (pure (false, elim chat [ none ↦ none | some c ↦ some c.0 ]))

-- `endedBy`
unfoldable pub ended_by : ℕ → Request → NegotiationEndedBy
ended_by user_id request =
    if request.user_id == user_id then NegotiationEndedBy.buyer else NegotiationEndedBy.seller

-- `recipientId`
unfoldable pub told_of_end : ℕ → Offer → Request → ℕ
told_of_end user_id offer request =
    if request.user_id == user_id then offer.seller_id else request.user_id

-- `endNegotiation` from its transaction on.
unfoldable pub run_end : ℕ → ℕ → ℕ → Offer → Request → Action DealResponse
run_end now offer_id user_id offer request = do
  let by = ended_by user_id request
  (did_end, chat_id) ← transaction (end_commit now offer_id offer.request_id by)
  when (did_end && is_some chat_id) (
      write (
        post (
          Notification.negotiation_ended (told_of_end user_id offer request) (or_else chat_id 0)
            offer_id by)))
  current ← or_raise (← gets (find_request offer.request_id)) Error.broken_reference
  pure
      (record { chat_id = chat_id; request_id = offer.request_id; request_status = current.status })

unfoldable pub end_negotiation : ℕ → ℕ → ℕ → Action DealResponse
end_negotiation now offer_id user_id = do
  offer ← or_raise (← gets (find_offer offer_id)) Error.offer_not_found
  request ← or_raise (← gets (find_request offer.request_id)) Error.broken_reference
  raise_if (not request.active) Error.offer_not_found
  raise_if (not (request.user_id == user_id) && not (offer.seller_id == user_id)) Error.forbidden
  raise_if (not (is_aceptada offer.status)) Error.not_accepted_negotiation
  raise_if (is_some offer.deal_completed_at) Error.deal_already_completed
  chat ← gets (λ db. chat_of_offer offer_id db.chats)
  choose (is_some offer.negotiation_ended_at)
      (pure (record {
        chat_id = elim chat [ none ↦ none | some c ↦ some c.0 ];
        request_id = offer.request_id;
        request_status = request.status;
      }))
      (run_end now offer_id user_id offer request)
