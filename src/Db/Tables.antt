-- ===== src/Db/Tables.antt =====
-- The Prisma calls of the services, as functions on the tables.
use buyseekk.Prelude.{
  ℕ, suc, Bool, true, false, Option, none, some, List, [], ◌∷◌, ◌++◌, ◌==◌, ◌&&◌, ◌||◌, not, length,
  get_elem?, modify, is_none, is_some, if◌then◌else◌,
}
use buyseekk.Shared.RequestStatus.{StoredRequestStatus, is_activa}
use buyseekk.Db.Schema.{OfferStatus, Request, Offer, Chat, Message, Notification, Db, User}
use buyseekk.Db.Action.{ok, Action}

abbrev pub is_pendiente : OfferStatus → Bool
is_pendiente OfferStatus.pendiente = true
is_pendiente _ = false

abbrev pub is_aceptada : OfferStatus → Bool
is_aceptada OfferStatus.aceptada = true
is_aceptada _ = false

abbrev pub is_rechazada : OfferStatus → Bool
is_rechazada OfferStatus.rechazada = true
is_rechazada _ = false

-- packages/shared/src/offer-negotiation.ts
unfoldable pub is_active_negotiation : Offer → Bool
is_active_negotiation o =
    is_aceptada o.status && is_none o.deal_completed_at && is_none o.negotiation_ended_at

unfoldable pub is_negotiation_ended_without_deal : Offer → Bool
is_negotiation_ended_without_deal o =
    is_aceptada o.status && is_none o.deal_completed_at && is_some o.negotiation_ended_at

unfoldable pub can_remove_offer_from_listing : Offer → Bool
unfolding is_negotiation_ended_without_deal
can_remove_offer_from_listing o =
    if is_some o.deal_completed_at then true else is_negotiation_ended_without_deal o

-- The filters `{ requestId, status: ACEPTADA, dealCompletedAt: null, negotiationEndedAt: null }` and
-- `{ requestId, dealCompletedAt: { not: null } }`.
unfoldable pub negotiates_on : ℕ → Offer → Bool
unfolding is_active_negotiation
negotiates_on request_id o = o.request_id == request_id && is_active_negotiation o

unfoldable pub completed_on : ℕ → Offer → Bool
completed_on request_id o = o.request_id == request_id && is_some o.deal_completed_at

-- The row of a table with a unique column: its position and the row.
abbrev pub find_from {ℓ} : {A : Type ℓ} → (A → Bool) → ℕ → List A → Option (ℕ × A)
find_from p i [] = none
find_from p i (x ∷ xs) = let rest = find_from p (suc i) xs in if p x then some (i, x) else rest

unfoldable pub chat_of_offer : ℕ → List Chat → Option (ℕ × Chat)
chat_of_offer offer_id chats = find_from (λ c. c.offer_id == offer_id) 0 chats

abbrev pub find_offer : ℕ → Db → Option Offer
find_offer id db = get_elem? db.offers id

abbrev pub find_request : ℕ → Db → Option Request
find_request id db = get_elem? db.requests id

abbrev pub find_user : ℕ → Db → Option User
find_user id db = get_elem? db.users id

-- `offer.updateMany({ where: { id, …p }, data: f })`: true if the row was updated.
abbrev pub update_offer : ℕ → (Offer → Bool) → (Offer → Offer) → Action Bool
update_offer id p f db = elim (get_elem? db.offers id) [
  | none ↦ (ok false, db)
  | some o ↦ if p o then (ok true, record db { offers = modify db.offers id f }) else (ok false, db)
]

abbrev pub set_requests : (List Request → List Request) → Db → Db
set_requests f db = record db { requests = f db.requests }

abbrev pub set_offers : (List Offer → List Offer) → Db → Db
set_offers f db = record db { offers = f db.offers }

abbrev pub post : Notification → Db → Db
post n db = record db { outbox = db.outbox ++ n ∷ [] }

-- `request.updateMany({ where: { id, status: ACTIVA }, data: { status: NEGOCIANDO } })`
abbrev pub start_negotiating : Request → Request
start_negotiating r = record r {
  status = if is_activa r.status then StoredRequestStatus.negociando else r.status;
}

-- `data: { lastBuyerActivityAt: now, lastActivityAt: now }`
abbrev pub touch : ℕ → Request → Request
touch now r = record r { last_activity_at = now; last_buyer_activity_at = now }

-- The update that closes a request, in `complete` and in `close`.
abbrev pub close_row : ℕ → Request → Request
close_row now r = record (touch now r) {
  status = StoredRequestStatus.cerrada;
  closed_at = some now;
  paused_at = none;
}

-- `chat.upsert` by the unique `offerId`: the chat's id, and whether it is new.
abbrev pub upsert_chat : ℕ → ℕ → (ℕ → Bool → List Message) → Action ℕ
upsert_chat now offer_id messages db = elim (chat_of_offer offer_id db.chats) [
  | some (id, _) ↦ (ok id, record db { messages = db.messages ++ messages id false })
  | none ↦
      let id = length db.chats in
      (
        ok id,
        record db {
          chats =
              db.chats
              ++ record { offer_id = offer_id; last_message_at = now; created_at = now } ∷ [];
          messages = db.messages ++ messages id true;
        },
      )
]

-- `findFirst` over the offers but one: is there another row that fits?
abbrev pub some_other {ℓ} : {A : Type ℓ} → ℕ → (A → Bool) → ℕ → List A → Bool
some_other id p i [] = false
some_other id p i (x ∷ xs) = (p x && not (i == id)) || some_other id p (suc i) xs
