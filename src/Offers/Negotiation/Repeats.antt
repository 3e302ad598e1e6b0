-- ===== src/Offers/Negotiation/Repeats.antt =====
-- A decision that is repeated: the second call of `accept`.
use buyseekk.Prelude.{
  ℕ, ◌≡◌, refl, ap, ◌∙◌, ◌⊎◌, inl, inr, true, none, some, List, [], ◌∷◌, ◌++◌, is_some,
  Option-cases, arith, get_elem?-modify_self,
}
use buyseekk.Db.Schema.{OfferStatus, Chat, Request, Offer, User, Db}
use buyseekk.Db.Action.{ok}
use buyseekk.Db.Tables.{
  chat_of_offer, find_offer, find_request, find_user, touch, start_negotiating,
}
use buyseekk.Db.Rows.{chat_of_offer-append_new, some_row}
use buyseekk.Offers.Negotiation.{accept, accept_commit}

append_nil : {A : Type 0} (xs : List A) → xs ++ [] ≡ xs
append_nil [] = refl
append_nil (x ∷ xs) = ap (λ (ys : List _). x ∷ ys) (append_nil xs)

-- What an answered `accept` has seen or made so.
record IsAccepted (offer_id buyer_id chat_id : ℕ) (db : Db) : Type 0 where
  offer : Offer
  request : Request
  seller : User
  chat : Chat
  offer_found : find_offer offer_id db ≡ some offer
  request_found : find_request offer.request_id db ≡ some request
  seller_found : find_user offer.seller_id db ≡ some seller
  chat_found : chat_of_offer offer_id db.chats ≡ some (chat_id, chat)
  accepted : offer.status ≡ OfferStatus.aceptada
  owner : request.user_id ≡ buyer_id
  active : request.active ≡ true

accept_again :
    (now offer_id buyer_id chat_id : ℕ) (db : Db)
    → IsAccepted offer_id buyer_id chat_id db
    → accept now offer_id buyer_id db ≡ (ok chat_id, db)
unfolding accept accept_commit
accept_again now offer_id buyer_id chat_id db a = ground (
  arith,
  a.offer_found,
  a.request_found,
  a.seller_found,
  a.chat_found,
  a.accepted,
  a.owner,
  a.active,
  append_nil db.messages,
)

accept_found :
    (now offer_id buyer_id : ℕ) (db : Db) {id : ℕ}
    → (accept now offer_id buyer_id db).0 ≡ ok id
    → (offer : Offer) × (find_offer offer_id db ≡ some offer)
      × (is_some (find_request offer.request_id db) ≡ true)
unfolding accept
accept_found now offer_id buyer_id db h = ground arith

module _ (now offer_id buyer_id : ℕ) (db : Db) {offer : Offer} {request : Request} {id : ℕ}
    (found : find_offer offer_id db ≡ some offer)
    (of : find_request offer.request_id db ≡ some request)
    (h : (accept now offer_id buyer_id db).0 ≡ ok id) where
  abbrev left : Db
  left = (accept now offer_id buyer_id db).1

  accept_checks :
      (request.user_id ≡ buyer_id)
      × (request.active ≡ true)
      × ((offer.status ≡ OfferStatus.pendiente) ⊎ (offer.status ≡ OfferStatus.aceptada))
  unfolding accept accept_commit
  accept_checks = ground (
    arith,
    get_elem?-modify_self db.offers offer_id
        (λ o. record o { status = OfferStatus.aceptada; accepted_at = some now }) found,
  )

  accept_seller : (is_some (find_user offer.seller_id db) ≡ true) × (left.users ≡ db.users)
  unfolding accept accept_commit
  accept_seller = ground (
    arith,
    get_elem?-modify_self db.offers offer_id
        (λ o. record o { status = OfferStatus.aceptada; accepted_at = some now }) found,
  )

  accepted_offer :
      (o : Offer) × (find_offer offer_id left ≡ some o)
      × (o.status ≡ OfferStatus.aceptada)
      × (o.request_id ≡ offer.request_id)
      × (o.seller_id ≡ offer.seller_id)
  unfolding accept accept_commit
  accepted_offer = elim accept_checks.2 [
    | inl pending ↦ (
      record offer { status = OfferStatus.aceptada; accepted_at = some now },
      ground (
        arith,
        get_elem?-modify_self db.offers offer_id
            (λ o. record o { status = OfferStatus.aceptada; accepted_at = some now }) found,
      ),
      refl,
      refl,
      refl,
    )
    | inr before ↦ (offer, ground arith, before, refl, refl)
  ]

  accepted_request :
      (r : Request) × (find_request offer.request_id left ≡ some r)
      × (r.user_id ≡ request.user_id)
      × (r.active ≡ request.active)
  unfolding accept accept_commit
  accepted_request = elim accept_checks.2 [
    | inl pending ↦ (
      touch now (start_negotiating request),
      ground (
        arith,
        get_elem?-modify_self db.offers offer_id
            (λ o. record o { status = OfferStatus.aceptada; accepted_at = some now }) found,
        get_elem?-modify_self db.requests offer.request_id (λ r. touch now (start_negotiating r))
            of,
      ),
      refl,
      refl,
    )
    | inr before ↦ (request, ground arith, refl, refl)
  ]

  abbrev fresh_chat : Chat
  fresh_chat = record { offer_id = offer_id; last_message_at = now; created_at = now }

  chat_made :
      offer.status ≡ OfferStatus.pendiente
      → chat_of_offer offer_id db.chats ≡ none
      → chat_of_offer offer_id left.chats ≡ some (id, fresh_chat)
  unfolding accept accept_commit
  chat_made s was = ground (
    arith,
    get_elem?-modify_self db.offers offer_id
        (λ o. record o { status = OfferStatus.aceptada; accepted_at = some now }) found,
    chat_of_offer-append_new offer_id db.chats fresh_chat,
  )

  chat_remade :
      offer.status ≡ OfferStatus.aceptada
      → chat_of_offer offer_id db.chats ≡ none
      → chat_of_offer offer_id left.chats ≡ some (id, fresh_chat)
  unfolding accept accept_commit
  chat_remade s was = ground (arith, chat_of_offer-append_new offer_id db.chats fresh_chat)

  chat_kept :
      {c : ℕ × Chat}
      → offer.status ≡ OfferStatus.pendiente
      → chat_of_offer offer_id db.chats ≡ some c
      → chat_of_offer offer_id left.chats ≡ some (id, c.1)
  unfolding accept accept_commit
  chat_kept s was = ground (
    arith,
    get_elem?-modify_self db.offers offer_id
        (λ o. record o { status = OfferStatus.aceptada; accepted_at = some now }) found,
  )

  chat_found_again :
      {c : ℕ × Chat}
      → offer.status ≡ OfferStatus.aceptada
      → chat_of_offer offer_id db.chats ≡ some c
      → chat_of_offer offer_id left.chats ≡ some (id, c.1)
  unfolding accept accept_commit
  chat_found_again s was = ground arith

  accepted_chat : (c : Chat) × (chat_of_offer offer_id left.chats ≡ some (id, c))
  accepted_chat = elim (Option-cases (chat_of_offer offer_id db.chats)) [
    | inl missing ↦ elim accept_checks.2 [
      | inl pending ↦ (fresh_chat, chat_made pending missing)
      | inr before ↦ (fresh_chat, chat_remade before missing)
    ]
    | inr (c, old) ↦ elim accept_checks.2 [
      | inl pending ↦ (c.1, chat_kept pending old)
      | inr before ↦ (c.1, chat_found_again before old)
    ]
  ]

-- An accept that was answered, and is called again by the same buyer at any later time, has the same
-- answer, the chat's id, and changes nothing: the date, the chat and the messages stay, and the seller
-- is not notified again.
pub accept-repeated :
    (now later offer_id buyer_id : ℕ) (db : Db) {id : ℕ}
    → (accept now offer_id buyer_id db).0 ≡ ok id
    → let db' = (accept now offer_id buyer_id db).1 in
      accept later offer_id buyer_id db' ≡ (ok id, db')
accept-repeated now later offer_id buyer_id db {id} h =
    let (offer, found, has_request) = accept_found now offer_id buyer_id db h in
    let (request, of) = some_row (find_request offer.request_id db) has_request in
    let (owner, active, _) = accept_checks now offer_id buyer_id db found of h in
    let (has_seller, users) = accept_seller now offer_id buyer_id db found of h in
    let (seller, seller_found) = some_row (find_user offer.seller_id db) has_seller in
    let (o, o_found, accepted, o_request, o_seller) =
      accepted_offer now offer_id buyer_id db found of h in
    let (r, r_found, r_owner, r_active) = accepted_request now offer_id buyer_id db found of h in
    let (c, c_found) = accepted_chat now offer_id buyer_id db found of h in
    let db' = (accept now offer_id buyer_id db).1 in
    accept_again later offer_id buyer_id id db' (record {
      offer = o;
      request = r;
      seller = seller;
      chat = c;
      offer_found = o_found;
      request_found = rw o_request r_found;
      seller_found = rw (o_seller, users) seller_found;
      chat_found = c_found;
      accepted = accepted;
      owner = r_owner ∙ owner;
      active = r_active ∙ active;
    })
