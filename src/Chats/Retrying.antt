-- ===== src/Chats/Retrying.antt =====
-- `send` by a client that repeats a message whose answer it did not get.
use buyseekk.Prelude.{
  ℕ, ◌+◌, ◌≡◌, refl, ap, sym, ◌∙◌, ◌⊎◌, inl, inr, true, Option, none, some, List, [], ◌∷◌, ◌++◌,
  get_elem?, modify, length, Option-cases, ==_refl, arith, Text, text_eq, get_elem?-modify_self,
}
use buyseekk.Db.Schema.{MessageRole, Message, Chat, Request, Offer, User, Db}
use buyseekk.Db.Action.{Result, ok}
use buyseekk.Db.Tables.{find_request, touch, start_negotiating}
use buyseekk.Db.Rows.{find_from-append_new}
use buyseekk.Chats.{
  Side, role_of, has_client_key, existing_message, normalize_client_message_id, send_commit,
  after_send, mark_chat_read, SendMessageDto, send,
}
use buyseekk.Chats.Sending.{IsSideOf, MaySend, message_of, send_found, send_new, send-eq-ok}

text_eq_refl : (s : Text) → text_eq s s ≡ true
text_eq_refl [] = refl
text_eq_refl (a ∷ s) = ground (arith, ==_refl a, text_eq_refl s)

side_of :
    (s : Side) (offer : Offer) (request r : Request) (user_id : ℕ)
    → r.user_id ≡ request.user_id
    → IsSideOf s offer request user_id
    → IsSideOf s offer r user_id
side_of Side.buyer offer request r user_id e w = e ∙ w
side_of Side.seller offer request r user_id e (ne, w) = (λ d. ne (sym e ∙ d), w)

module _ (now chat_id user_id : ℕ) (role : Side) (offer : Offer) (request : Request)
    (message : Message) (db : Db) where
  abbrev sent : Db
  sent = after_send now chat_id user_id role offer request (send_commit now message db)

  sent_messages : sent.messages ≡ db.messages ++ message ∷ []
  unfolding after_send send_commit mark_chat_read
  sent_messages = ground arith

  sent_others : (sent.offers ≡ db.offers) × (sent.users ≡ db.users)
  unfolding after_send send_commit mark_chat_read
  sent_others = ground arith

  sent_chats :
      sent.chats ≡ modify db.chats message.chat_id (λ c. record c { last_message_at = now })
  unfolding after_send send_commit mark_chat_read
  sent_chats = ground arith

  abbrev talked : Request → Request
  talked r = start_negotiating (touch now r)

  sent_requests :
      (sent.requests ≡ db.requests) ⊎ (sent.requests ≡ modify db.requests offer.request_id talked)
  unfolding after_send send_commit mark_chat_read
  sent_requests = ground arith

  sent_request :
      find_request offer.request_id db ≡ some request
      → (r : Request) × (find_request offer.request_id sent ≡ some r)
        × (r.user_id ≡ request.user_id)
  sent_request h = elim sent_requests [
    | inl same ↦ (request, rw same h, refl)
    | inr changed ↦ (
      talked request,
      rw changed (get_elem?-modify_self db.requests offer.request_id talked h),
      ground arith,
    )
  ]

  sent_chat :
      {chat : Chat}
      → get_elem? db.chats chat_id ≡ some chat
      → message.chat_id ≡ chat_id
      → (c : Chat) × (get_elem? sent.chats chat_id ≡ some c) × (c.offer_id ≡ chat.offer_id)
  sent_chat {chat} found same = (
    record chat { last_message_at = now },
    rw (sent_chats, same)
        (get_elem?-modify_self db.chats chat_id (λ c. record c { last_message_at = now }) found),
    refl,
  )

  -- The sender may send again.
  sent-MaySend :
      {chat : Chat} {user : User}
      → message.chat_id ≡ chat_id
      → MaySend chat_id user_id db chat offer request user role
      → (c : Chat) × (r : Request) × MaySend chat_id user_id sent c offer r user role
  sent-MaySend same may =
      let (c, c_found, c_offer) = sent_chat may.chat_found same in
      let (r, r_found, r_owner) = sent_request may.request_found in
      let (offers, users) = sent_others in
      (
        c,
        r,
        record {
          chat_found = c_found;
          offer_found = rw (offers, c_offer) may.offer_found;
          request_found = r_found;
          user_found = rw users may.user_found;
          not_admin = may.not_admin;
          not_blocked = may.not_blocked;
          not_suspended = may.not_suspended;
          verified = may.verified;
          accepted = may.accepted;
          side = side_of role offer request r user_id r_owner may.side;
          not_ended = may.not_ended;
        },
      )

-- The stored message has the key of the message that was sent.
message-has_client_key :
    (now chat_id : ℕ) (role : Side) (dto : SendMessageDto) {key : Text}
    → normalize_client_message_id dto.client_message_id ≡ some key
    → has_client_key chat_id (role_of role) key (message_of now chat_id role dto) ≡ true
unfolding has_client_key
message-has_client_key now chat_id Side.buyer dto {key} h =
    rw h (ground (arith, ==_refl chat_id, text_eq_refl key))
message-has_client_key now chat_id Side.seller dto {key} h =
    rw h (ground (arith, ==_refl chat_id, text_eq_refl key))

-- Where no message had the key, the one that is stored is found by it.
stored_message :
    (chat_id : ℕ) (role : MessageRole) (k : Option Text) (key : Text) (messages : List Message)
    (m : Message)
    → k ≡ some key
    → has_client_key chat_id role key m ≡ true
    → existing_message chat_id role k messages ≡ none
    → existing_message chat_id role k (messages ++ m ∷ []) ≡ some (length messages, m)
stored_message chat_id role k key messages m h has fresh =
    let at : 0 + length messages ≡ length messages = omega arith in
    let found =
      find_from-append_new (has_client_key chat_id role key) 0 messages m (rw h at fresh) has in
    rw h (rw at at found)

-- An answered call whose repetition on what it left has the same answer.
same_answer :
    (first : Result ℕ × Db) (again : Db → Result ℕ × Db) {a id : ℕ} {db' : Db}
    → first ≡ (ok a, db')
    → again db' ≡ (ok a, db')
    → first.0 ≡ ok id
    → again first.1 ≡ (ok id, first.1)
same_answer first again {a} {id} e r h =
    let h' : ok a ≡ ok id = ap (λ (x : Result ℕ × Db). x.0) (sym e) ∙ h in
    let w : a ≡ id = cc in rw e (rw w at r)

-- A message that was sent with a client id and is sent again, at any later time, has the same answer,
-- and the second call changes nothing: no message, notification or read mark is added.
pub send-repeated :
    (now later chat_id user_id : ℕ) (dto : SendMessageDto) (db : Db) {id : ℕ} {key : Text}
    → normalize_client_message_id dto.client_message_id ≡ some key
    → (send now chat_id user_id dto db).0 ≡ ok id
    → let db' = (send now chat_id user_id dto db).1 in
      send later chat_id user_id dto db' ≡ (ok id, db')
send-repeated now later chat_id user_id dto db {id} {key} h sent_ok =
    let (filled, fits, (chat, offer, request, user, role, may)) =
      send-eq-ok now chat_id user_id dto db sent_ok in
    elim (Option-cases (
      existing_message chat_id (role_of role) (normalize_client_message_id dto.client_message_id)
        db.messages)) [
          | inl fresh ↦
              let m = message_of now chat_id role dto in
              let has = message-has_client_key now chat_id role dto h in
              let found =
                stored_message chat_id (role_of role)
                  (normalize_client_message_id dto.client_message_id) key db.messages m h has
                  fresh in
              let (c, r, may') =
                sent-MaySend now chat_id user_id role offer request m db refl may in
              same_answer (send now chat_id user_id dto db) (send later chat_id user_id dto)
                (send_new now chat_id user_id dto db may filled fits fresh)
                (send_found later chat_id user_id dto
                  (sent now chat_id user_id role offer request m db) may' filled fits
                  (ap
                      (existing_message chat_id (role_of role)
                        (normalize_client_message_id dto.client_message_id))
                      (sent_messages now chat_id user_id role offer request m db)
                    ∙ found))
                sent_ok
          | inr (m, old) ↦
              same_answer (send now chat_id user_id dto db) (send later chat_id user_id dto)
                (send_found now chat_id user_id dto db may filled fits old)
                (send_found later chat_id user_id dto db may filled fits old) sent_ok
        ]
