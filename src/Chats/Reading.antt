-- ===== src/Chats/Reading.antt =====
-- What the read marks promise: `markChatRead`, `getLastReadAt` and `countUnreadForChat`.
use buyseekk.Prelude.{
  ℕ, suc, ◌≡◌, ◌≢◌, refl, ◌⊎◌, inl, inr, Bool, true, false, Option, none, some, List, [], ◌∷◌, ◌++◌,
  ◌==◌, ◌&&◌, ltb, update_where, some_of, count_where, Bool-cases, ==_refl, arith,
}
use buyseekk.Db.Schema.{MessageRole, Message, ChatReadState, Db}
use buyseekk.Db.Tables.{find_from}
use buyseekk.Chats.{
  Side, partner_role, same_role, is_read_state_of, last_read_at, count_unread_for_chat,
  mark_chat_read,
}

module _ (now chat_id user_id : ℕ) where
  abbrev mark : ChatReadState → ChatReadState
  mark s = record s { last_read_at = now }

  abbrev new_state : ChatReadState
  new_state = record { chat_id = chat_id; user_id = user_id; last_read_at = now }

  -- The time of the row that `find_from` finds, or the epoch.
  abbrev time_of : Option (ℕ × ChatReadState) → ℕ
  time_of none = 0
  time_of (some s) = s.1.last_read_at

  marked_row :
      (i : ℕ) (states : List ChatReadState)
      → some_of (is_read_state_of chat_id user_id) states ≡ true
      → time_of (
          find_from
            (is_read_state_of chat_id user_id)
            i
            (update_where (is_read_state_of chat_id user_id) mark states))
        ≡ now
  marked_row i [] h = absurd (cc h)
  marked_row i (s ∷ states) h = elim (Bool-cases (is_read_state_of chat_id user_id s)) [
    | inl here ↦ rw here (ground arith)
    | inr later ↦ ground (arith, marked_row (suc i) states)
  ]

  inserted_row :
      (i : ℕ) (states : List ChatReadState)
      → some_of (is_read_state_of chat_id user_id) states ≡ false
      → time_of (find_from (is_read_state_of chat_id user_id) i (states ++ new_state ∷ [])) ≡ now
  inserted_row i [] h = ground (arith, ==_refl chat_id, ==_refl user_id)
  inserted_row i (s ∷ states) h = ground (arith, inserted_row (suc i) states)

  pub last_read_at-mark_chat_read :
      (db : Db)
      → last_read_at chat_id user_id (mark_chat_read now chat_id user_id db).read_states ≡ now
  unfolding last_read_at mark_chat_read
  last_read_at-mark_chat_read db =
      elim (Bool-cases (some_of (is_read_state_of chat_id user_id) db.read_states)) [
        | inl read ↦ ground (arith, marked_row 0 db.read_states)
        | inr never ↦ ground (arith, inserted_row 0 db.read_states)
      ]

  module _ (chat user : ℕ) (other : (chat ≢ chat_id) ⊎ (user ≢ user_id)) where
    marked_elsewhere :
        (i : ℕ) (states : List ChatReadState)
        → time_of (
            find_from
              (is_read_state_of chat user)
              i
              (update_where (is_read_state_of chat_id user_id) mark states))
          ≡ time_of (find_from (is_read_state_of chat user) i states)
    marked_elsewhere i [] = refl
    marked_elsewhere i (s ∷ states) = ground (arith, marked_elsewhere (suc i) states)

    inserted_elsewhere :
        (i : ℕ) (states : List ChatReadState)
        → time_of (find_from (is_read_state_of chat user) i (states ++ new_state ∷ []))
          ≡ time_of (find_from (is_read_state_of chat user) i states)
    inserted_elsewhere i [] = ground arith
    inserted_elsewhere i (s ∷ states) = ground (arith, inserted_elsewhere (suc i) states)

    pub last_read_at-mark_elsewhere :
        (db : Db)
        → last_read_at chat user (mark_chat_read now chat_id user_id db).read_states
          ≡ last_read_at chat user db.read_states
    unfolding last_read_at mark_chat_read
    last_read_at-mark_elsewhere db =
        elim (Bool-cases (some_of (is_read_state_of chat_id user_id) db.read_states)) [
          | inl read ↦ ground (arith, marked_elsewhere 0 db.read_states)
          | inr never ↦ ground (arith, inserted_elsewhere 0 db.read_states)
        ]

messages-mark_chat_read :
    (now chat_id user_id : ℕ) (db : Db)
    → (mark_chat_read now chat_id user_id db).messages ≡ db.messages
unfolding mark_chat_read
messages-mark_chat_read now chat_id user_id db = ground arith

-- The messages of a chat that its other side wrote after a time.
abbrev pub is_later_from : ℕ → MessageRole → ℕ → Message → Bool
is_later_from chat_id role time m =
    m.chat_id == chat_id && ltb time m.created_at && same_role role m.from_role

-- After a chat is marked read, a user's unread messages in it are those that the other side wrote
-- after the mark, and the counts of every other chat and of every other user are as before.
pub count_unread-mark_chat_read :
    (now chat_id user_id : ℕ) (role : Side) (db : Db)
    → (count_unread_for_chat chat_id user_id role (mark_chat_read now chat_id user_id db)
        ≡ count_where (is_later_from chat_id (partner_role role) now) db.messages)
      × ((chat user : ℕ) (side : Side)
          → (chat ≢ chat_id) ⊎ (user ≢ user_id)
          → count_unread_for_chat chat user side (mark_chat_read now chat_id user_id db)
            ≡ count_unread_for_chat chat user side db)
unfolding count_unread_for_chat
count_unread-mark_chat_read now chat_id user_id role db = (
  rw
      (
        last_read_at-mark_chat_read now chat_id user_id db,
        messages-mark_chat_read now chat_id user_id db,
      )
      refl,
  λ chat user side other.
      rw
        (
          last_read_at-mark_elsewhere now chat_id user_id chat user other db,
          messages-mark_chat_read now chat_id user_id db,
        )
        refl,
)
