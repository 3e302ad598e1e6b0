-- ===== src/Market/Calls.antt =====
-- The creation of an offer, a sent message and a joined chat (offers.service.ts, chats.service.ts)
-- against the invariant.
use buyseekk.Prelude.{ℕ, refl, ◌⊎◌, inl, inr, List, arith, trim, get_elem?, Option-cases}
use buyseekk.Db.Schema.{Request, Offer, Db}
use buyseekk.Db.Action.{◌>>◌}
use buyseekk.Db.Tables.{find_offer, touch, start_negotiating}
use buyseekk.Db.Quiet.{quiet_bind}
use buyseekk.Access.{Env}
use buyseekk.Offers.Create.{
  CreateOfferDto, create, new_offer, insert_offer, offerable_request, assert_may_offer,
  assert_proposal,
}
use buyseekk.Offers.Create.Laws.{
  offerable_request-IsQuiet, assert_may_offer-IsQuiet, assert_proposal-IsQuiet, created, finish,
  finish_taken, finish_fresh, insert_offer-cases,
}
use buyseekk.Chats.{SendMessageDto, send, join}
use buyseekk.Market.Invariant.{append_offer-IsValid}
use buyseekk.Market.Negotiation.{DbIsValid, Unchanged}
use buyseekk.Market.Requests.{talk-KeepsStatus}
use buyseekk.Market.Methods.{Unchanged-IsValid}
use buyseekk.Market.Moves.{Updates, Updates-IsValid}

finish_path :
    (request : Request) (o : Offer) (db : Db)
    → Unchanged (insert_offer o db).1 (finish request o db).1
finish_path request o db = elim (insert_offer-cases o db) [
  | inl taken ↦ rw (taken, finish_taken request o db taken) (refl, refl)
  | inr fresh ↦ rw (fresh, finish_fresh request o db fresh) (refl, refl)
]

pub create_path :
    (env : Env) (now seller_id : ℕ) (dto : CreateOfferDto) (db : Db)
    → let db' = (create env now seller_id dto db).1 in
      Unchanged db db'
      ⊎ ((request : Request) × Unchanged
            (insert_offer (created now request seller_id dto) db).1
            db')
unfolding create finish
create_path env now seller_id dto db =
    let message = trim dto.terms.message in
    let P : Db → Type 0 = λ db'.
      Unchanged db db'
      ⊎ ((request : Request) × Unchanged (insert_offer (created now request seller_id dto) db).1
            db') in
    quiet_bind P (offerable_request now dto.request_id)
      (λ r.
        assert_may_offer r dto.request_id seller_id
        >> (assert_proposal env now r seller_id dto.terms message
            >> finish r (created now r seller_id dto)))
      db (offerable_request-IsQuiet now dto.request_id) (inl (refl, refl))
      (λ r h.
        quiet_bind P (assert_may_offer r dto.request_id seller_id)
          (λ _.
            assert_proposal env now r seller_id dto.terms message
            >> finish r (created now r seller_id dto))
          db (assert_may_offer-IsQuiet r dto.request_id seller_id) (inl (refl, refl))
          (λ u h.
            quiet_bind P (assert_proposal env now r seller_id dto.terms message)
              (λ _. finish r (created now r seller_id dto)) db
              (assert_proposal-IsQuiet env now r seller_id dto.terms message) (inl (refl, refl))
              (λ w h. inr (r, finish_path r (created now r seller_id dto) db))))

pub insert_offer-IsValid :
    (now : ℕ) (request : Request) (seller_id : ℕ) (dto : CreateOfferDto) (message : List ℕ)
    (db : Db)
    → DbIsValid db
    → DbIsValid (insert_offer (new_offer now request seller_id dto message) db).1
unfolding new_offer
insert_offer-IsValid now request seller_id dto message db v =
    let o = new_offer now request seller_id dto message in
    elim (insert_offer-cases o db) [
      | inl taken ↦ rw taken v
      | inr fresh ↦ rw fresh (append_offer-IsValid db.requests db.offers o refl refl refl v)
    ]

pub create-IsValid :
    (env : Env) (now seller_id : ℕ) (dto : CreateOfferDto) (db : Db)
    → DbIsValid db
    → DbIsValid (create env now seller_id dto db).1
create-IsValid env now seller_id dto db v =
    let db' = (create env now seller_id dto db).1 in
    elim (create_path env now seller_id dto db) [
      | inl same ↦ Unchanged-IsValid db db' same v
      | inr (request, rest) ↦
          Unchanged-IsValid (insert_offer (created now request seller_id dto) db).1 db' rest
            (insert_offer-IsValid now request seller_id dto (trim dto.terms.message) db v)
    ]

abbrev talk_row : ℕ → Request → Request
talk_row now r = start_negotiating (touch now r)

pub send_path :
    (now chat_id user_id : ℕ) (dto : SendMessageDto) (db : Db)
    → (id : ℕ) × Updates (talk_row now) id db (send now chat_id user_id dto db).1
unfolding send
send_path now chat_id user_id dto db = elim (Option-cases (get_elem? db.chats chat_id)) [
  | inl missing ↦ (0, ground arith)
  | inr (chat, found) ↦ elim (Option-cases (find_offer chat.offer_id db)) [
    | inl lost ↦ (0, ground arith)
    | inr (offer, of) ↦ (offer.request_id, ground arith)
  ]
]

pub join_path : (now chat_id user_id : ℕ) (db : Db) → Unchanged db (join now chat_id user_id db).1
unfolding join
join_path now chat_id user_id db = ground arith

pub send-IsValid :
    (now chat_id user_id : ℕ) (dto : SendMessageDto) (db : Db)
    → DbIsValid db
    → DbIsValid (send now chat_id user_id dto db).1
send-IsValid now chat_id user_id dto db v =
    let (id, path) = send_path now chat_id user_id dto db in
    Updates-IsValid (talk_row now) id db (send now chat_id user_id dto db).1 (talk-KeepsStatus now)
      path v
