-- ===== src/Chats/Sending.antt =====
-- `send` of chats.service.ts: who may send what, and what it leaves.
use buyseekk.Prelude.{
  ℕ, ◌≡◌, ◌≢◌, ◌≤◌, ◌⊎◌, inl, inr, true, false, none, some, is_some, get_elem?, length, arith, trim,
  is_empty,
}
use buyseekk.Db.Schema.{OfferStatus, MessageText, Message, Chat, Request, Offer, User, Db}
use buyseekk.Db.Action.{ok}
use buyseekk.Db.Tables.{find_offer, find_request, find_user}
use buyseekk.Access.{is_admin}
use buyseekk.Db.Rows.{some_row}
use buyseekk.Chats.{
  Side, role_of, max_chat_message_length, existing_message, normalize_client_message_id,
  send_commit, after_send, SendMessageDto, send,
}

-- The side of a chat that a user is on.
abbrev pub IsSideOf : Side → Offer → Request → ℕ → Type 0
IsSideOf Side.buyer offer request user_id = request.user_id ≡ user_id
IsSideOf Side.seller offer request user_id =
    (request.user_id ≢ user_id) × (offer.seller_id ≡ user_id)

-- What `send` requires of the state.
pub record MaySend (chat_id user_id : ℕ) (db : Db) (chat : Chat) (offer : Offer) (request : Request)
    (user : User) (role : Side) : Type 0 where
  pub chat_found : get_elem? db.chats chat_id ≡ some chat
  pub offer_found : find_offer chat.offer_id db ≡ some offer
  pub request_found : find_request offer.request_id db ≡ some request
  pub user_found : find_user user_id db ≡ some user
  pub not_admin : is_admin user.profile.role ≡ false
  pub not_blocked : user.blocked ≡ false
  pub not_suspended : user.suspended ≡ false
  pub verified : user.email_verified ≡ true
  pub accepted : offer.status ≡ OfferStatus.aceptada
  pub side : IsSideOf role offer request user_id
  pub not_ended : offer.negotiation_ended_at ≡ none

-- The message that `send` stores.
abbrev pub message_of : ℕ → ℕ → Side → SendMessageDto → Message
message_of now chat_id role dto = record {
  chat_id = chat_id;
  from_role = role_of role;
  text = MessageText.written (trim dto.text);
  client_message_id = normalize_client_message_id dto.client_message_id;
  created_at = now;
}

module _ (now chat_id user_id : ℕ) (dto : SendMessageDto) (db : Db) {chat : Chat} {offer : Offer}
    {request : Request} {user : User} {role : Side}
    (may : MaySend chat_id user_id db chat offer request user role)
    (filled : is_empty (trim dto.text) ≡ false)
    (fits : length (trim dto.text) ≤ max_chat_message_length) where
  pub send_found :
      {m : ℕ × Message}
      → existing_message chat_id
          (role_of role)
          (normalize_client_message_id dto.client_message_id)
          db.messages
        ≡ some m
      → send now chat_id user_id dto db ≡ (ok m.0, db)
  unfolding send
  send_found old = ground (
    arith, may.chat_found, may.offer_found, may.request_found, may.user_found, may.not_admin,
    may.not_blocked, may.not_suspended, may.verified, may.accepted, may.side, may.not_ended,
  )

  pub send_new :
      existing_message chat_id
          (role_of role)
          (normalize_client_message_id dto.client_message_id)
          db.messages
        ≡ none
      → send now chat_id user_id dto db ≡ (
        ok (length db.messages),
        after_send now chat_id user_id role offer request
            (send_commit now (message_of now chat_id role dto) db),
      )
  unfolding send
  send_new fresh = ground (
    arith, may.chat_found, may.offer_found, may.request_found, may.user_found, may.not_admin,
    may.not_blocked, may.not_suspended, may.verified, may.accepted, may.side, may.not_ended,
  )

send_text :
    (now chat_id user_id : ℕ) (dto : SendMessageDto) (db : Db) {id : ℕ}
    → (send now chat_id user_id dto db).0 ≡ ok id
    → (is_empty (trim dto.text) ≡ false) × (length (trim dto.text) ≤ max_chat_message_length)
unfolding send
send_text now chat_id user_id dto db h = ground arith

send_chat :
    (now chat_id user_id : ℕ) (dto : SendMessageDto) (db : Db) {id : ℕ}
    → (send now chat_id user_id dto db).0 ≡ ok id
    → (chat : Chat) × (get_elem? db.chats chat_id ≡ some chat)
      × (is_some (find_offer chat.offer_id db) ≡ true)
unfolding send
send_chat now chat_id user_id dto db h = ground arith

module _ (now chat_id user_id : ℕ) (dto : SendMessageDto) (db : Db) {chat : Chat} {offer : Offer}
    (chat_found : get_elem? db.chats chat_id ≡ some chat)
    (offer_found : find_offer chat.offer_id db ≡ some offer) {id : ℕ}
    (h : (send now chat_id user_id dto db).0 ≡ ok id) where
  send_request : is_some (find_request offer.request_id db) ≡ true
  unfolding send
  send_request = ground arith

  sender_exists : is_some (find_user user_id db) ≡ true
  unfolding send
  sender_exists = ground arith

  send_user :
      (user : User)
      → find_user user_id db ≡ some user
      → (is_admin user.profile.role ≡ false)
        × (user.blocked ≡ false)
        × (user.suspended ≡ false)
        × (user.email_verified ≡ true)
  unfolding send
  send_user user of = ground arith

  send_offer : (offer.status ≡ OfferStatus.aceptada) × (offer.negotiation_ended_at ≡ none)
  unfolding send
  send_offer = ground arith

  send_side :
      (request : Request)
      → find_request offer.request_id db ≡ some request
      → (request.user_id ≡ user_id) ⊎ ((request.user_id ≢ user_id) × (offer.seller_id ≡ user_id))
  unfolding send
  send_side request of = ground arith

-- A message is sent only by an active, verified user who is no administrator, on a chat whose offer
-- was accepted and whose negotiation is not ended, as the buyer or the seller of that offer; its text
-- is not empty after trimming and at most 2000 units long.
pub send-eq-ok :
    (now chat_id user_id : ℕ) (dto : SendMessageDto) (db : Db) {id : ℕ}
    → (send now chat_id user_id dto db).0 ≡ ok id
    → (is_empty (trim dto.text) ≡ false)
      × (length (trim dto.text) ≤ max_chat_message_length)
      × ((chat : Chat) × (offer : Offer) × (request : Request) × (user : User) × (role : Side)
          × MaySend chat_id user_id db chat offer request user role)
send-eq-ok now chat_id user_id dto db h =
    let (filled, fits) = send_text now chat_id user_id dto db h in
    let (chat, chat_found, has_offer) = send_chat now chat_id user_id dto db h in
    let (offer, offer_found) = some_row (find_offer chat.offer_id db) has_offer in
    let has_request = send_request now chat_id user_id dto db chat_found offer_found h in
    let (request, request_found) = some_row (find_request offer.request_id db) has_request in
    let has_user = sender_exists now chat_id user_id dto db chat_found offer_found h in
    let (user, user_found) = some_row (find_user user_id db) has_user in
    let (not_admin, not_blocked, not_suspended, verified) =
      send_user now chat_id user_id dto db chat_found offer_found h user user_found in
    let (accepted, not_ended) = send_offer now chat_id user_id dto db chat_found offer_found h in
    let may : (role : Side)
        → IsSideOf role offer request user_id
        → MaySend chat_id user_id db chat offer request user role =
      λ role side. record {
        chat_found = chat_found;
        offer_found = offer_found;
        request_found = request_found;
        user_found = user_found;
        not_admin = not_admin;
        not_blocked = not_blocked;
        not_suspended = not_suspended;
        verified = verified;
        accepted = accepted;
        side = side;
        not_ended = not_ended;
      } in
    let sided : (role : Side) × MaySend chat_id user_id db chat offer request user role =
      elim (send_side now chat_id user_id dto db chat_found offer_found h request request_found) [
        | inl is_buyer ↦ (Side.buyer, may Side.buyer is_buyer)
        | inr is_seller ↦ (Side.seller, may Side.seller is_seller)
      ] in
    (filled, fits, (chat, offer, request, user, sided.0, sided.1))
