-- ===== src/Chats.antt =====
-- apps/api/src/chats/chats.service.ts: who may read and write a chat, `send` with its idempotence by
-- the client's message id, and the read marks. The socket events and the counts of unread messages
-- that are sent to a user are left out; `send` tells what it stored.
pub mod Reading
pub mod Sending
pub mod Retrying
use buyseekk.Prelude.{
  ℕ, suc, Bool, true, false, Option, none, some, List, [], ◌∷◌, ◌++◌, ◌==◌, ltb, ◌&&◌, ◌||◌, not,
  is_some, get_elem?, modify, update_where, some_of, count_where, length, or_else, Text, text_eq,
  trim, is_empty, if◌then◌else◌,
}
use buyseekk.Db.Schema.{
  OfferStatus, MessageRole, MessageText, Message, ChatReadState, Chat, Request, Offer, Notification,
  Db,
}
use buyseekk.Db.Errors.{Error}
use buyseekk.Db.Action.{
  Action, pure, raise, gets, or_raise, transaction, raise_if, write, when, choose, ◌>>=◌, ◌>>◌,
}
use buyseekk.Db.Tables.{
  is_aceptada, find_offer, find_request, find_user, find_from, set_requests, post, touch,
  start_negotiating,
}
use buyseekk.Access.{
  assert_account_active, assert_email_verified, assert_not_admin_for_marketplace_actions,
}

abbrev pub max_chat_message_length : ℕ
max_chat_message_length = 2000

pub data Side : Type 0 where
  buyer seller : Side

abbrev pub role_of : Side → MessageRole
role_of Side.buyer = MessageRole.buyer
role_of Side.seller = MessageRole.seller

abbrev pub partner_role : Side → MessageRole
partner_role Side.buyer = MessageRole.seller
partner_role Side.seller = MessageRole.buyer

abbrev pub same_role : MessageRole → MessageRole → Bool
same_role MessageRole.system MessageRole.system = true
same_role MessageRole.buyer MessageRole.buyer = true
same_role MessageRole.seller MessageRole.seller = true
same_role _ _ = false

-- `assertParticipant`
unfoldable pub assert_participant : Offer → Request → ℕ → Action Side
assert_participant offer request user_id = do
  raise_if (not (is_aceptada offer.status)) Error.chat_not_available
  choose (request.user_id == user_id) (pure Side.buyer)
      (choose (offer.seller_id == user_id) (pure Side.seller) (raise Error.forbidden))

-- `partnerUserId`
unfoldable pub partner_user_id : Offer → Request → ℕ → Action ℕ
partner_user_id offer request user_id =
    choose (request.user_id == user_id) (pure offer.seller_id)
      (choose (offer.seller_id == user_id) (pure request.user_id) (raise Error.forbidden))

abbrev pub is_read_state_of : ℕ → ℕ → ChatReadState → Bool
is_read_state_of chat_id user_id s = s.chat_id == chat_id && s.user_id == user_id

-- `getLastReadAt`, with the epoch for a chat that was never read.
unfoldable pub last_read_at : ℕ → ℕ → List ChatReadState → ℕ
last_read_at chat_id user_id states = elim (find_from (is_read_state_of chat_id user_id) 0 states) [
  | none ↦ 0
  | some s ↦ s.1.last_read_at
]

-- `countUnreadForChat`
unfoldable pub count_unread_for_chat : ℕ → ℕ → Side → Db → ℕ
unfolding last_read_at
count_unread_for_chat chat_id user_id my_role db =
    let read_at = last_read_at chat_id user_id db.read_states in
    count_where
      (λ m.
        m.chat_id == chat_id
        && ltb read_at m.created_at
        && same_role (partner_role my_role) m.from_role)
      db.messages

-- `markChatRead`: an upsert by the unique (chatId, userId).
unfoldable pub mark_chat_read : ℕ → ℕ → ℕ → Db → Db
mark_chat_read now chat_id user_id db =
    if some_of (is_read_state_of chat_id user_id) db.read_states
    then record db {
      read_states =
          update_where (is_read_state_of chat_id user_id) (λ s. record s { last_read_at = now })
            db.read_states;
    }
    else record db {
      read_states =
          db.read_states
          ++ record { chat_id = chat_id; user_id = user_id; last_read_at = now } ∷ [];
    }

-- `normalizeClientMessageId`
unfoldable pub normalize_client_message_id : Option Text → Option Text
normalize_client_message_id none = none
normalize_client_message_id (some raw) =
    let value = trim raw in if is_empty value then none else some value

-- A message of this chat and role with this client id: the key of a unique index.
unfoldable pub has_client_key : ℕ → MessageRole → Text → Message → Bool
has_client_key chat_id role key m =
    m.chat_id == chat_id
    && same_role m.from_role role
    && elim m.client_message_id [ none ↦ false | some k ↦ text_eq k key ]

abbrev pub existing_message : ℕ → MessageRole → Option Text → List Message → Option (ℕ × Message)
existing_message chat_id role none messages = none
existing_message chat_id role (some key) messages =
    find_from (has_client_key chat_id role key) 0 messages

-- The transaction of `send`. Its unique index was just seen to be free; the case of a concurrent
-- send with the same key is `send_message` finding the message.
unfoldable pub send_commit : ℕ → Message → Db → Db
send_commit now message db = record db {
  messages = db.messages ++ message ∷ [];
  chats = modify db.chats message.chat_id (λ c. record c { last_message_at = now });
}

-- What `send` does after the commit: the read mark, the notification, and the request's activity.
unfoldable pub after_send : ℕ → ℕ → ℕ → Side → Offer → Request → Db → Db
unfolding mark_chat_read
after_send now chat_id user_id role offer request db =
    let recipient : ℕ = elim role [
      | Side.buyer ↦ offer.seller_id
      | Side.seller ↦ request.user_id
    ] in
    let read = mark_chat_read now chat_id user_id db in
    let told =
      if recipient == user_id
      then read
      else post (Notification.new_message recipient chat_id) read in
    elim role [
      | Side.seller ↦ told
      | Side.buyer ↦
          set_requests (λ rs. modify rs offer.request_id (λ r. start_negotiating (touch now r)))
            told
    ]

pub record SendMessageDto : Type 0 where
  pub text : Text
  pub client_message_id : Option Text

-- `send`: the id of the message, new or found by the client's id.
unfoldable pub send : ℕ → ℕ → ℕ → SendMessageDto → Action ℕ
unfolding assert_participant assert_not_admin_for_marketplace_actions assert_account_active
    assert_email_verified send_commit after_send
send now chat_id user_id dto = do
  let text = trim dto.text
  raise_if (is_empty text) Error.message_empty
  raise_if (ltb max_chat_message_length (length text)) Error.message_too_long
  let client_message_id = normalize_client_message_id dto.client_message_id
  chat ← or_raise (← gets (λ db. get_elem? db.chats chat_id)) Error.chat_not_found
  offer ← or_raise (← gets (find_offer chat.offer_id)) Error.broken_reference
  request ← or_raise (← gets (find_request offer.request_id)) Error.broken_reference
  user ← or_raise (← gets (find_user user_id)) Error.forbidden
  assert_not_admin_for_marketplace_actions user
  assert_account_active user
  assert_email_verified user
  role ← assert_participant offer request user_id
  raise_if (is_some offer.negotiation_ended_at) Error.chat_is_history
  existing ← gets (λ db. existing_message chat_id (role_of role) client_message_id db.messages)
  elim existing [
    | some found ↦ pure found.0
    | none ↦ do
      id ← gets (λ db. length db.messages)
      write (
          send_commit now (record {
            chat_id = chat_id;
            from_role = role_of role;
            text = MessageText.written text;
            client_message_id = client_message_id;
            created_at = now;
          }))
      write (after_send now chat_id user_id role offer request)
      pure id
  ]

-- `join`: it authorises and marks the chat read.
unfoldable pub join : ℕ → ℕ → ℕ → Action (Unit {0})
unfolding assert_participant mark_chat_read
join now chat_id user_id = do
  chat ← or_raise (← gets (λ db. get_elem? db.chats chat_id)) Error.chat_not_found
  offer ← or_raise (← gets (find_offer chat.offer_id)) Error.broken_reference
  request ← or_raise (← gets (find_request offer.request_id)) Error.broken_reference
  assert_participant offer request user_id
  write (mark_chat_read now chat_id user_id)
