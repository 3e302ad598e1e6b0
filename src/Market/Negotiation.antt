-- ===== src/Market/Negotiation.antt =====
-- The decisions on an offer (offers.service.ts) and each of their transactions, on any state that a
-- concurrent method may have left, against the invariant.
use buyseekk.Prelude.{
  ℕ, ◌≡◌, ◌≢◌, refl, sym, ◌∙◌, ap, ◌⊎◌, inl, inr, true, some, List, get_elem?, modify, count_where,
  count_where-modify, count_where-pos, get_elem?-modify_cases, get_elem?-modify_self, Option-cases,
  arith,
}
use buyseekk.Shared.RequestStatus.{StoredRequestStatus}
use buyseekk.Db.Schema.{OfferStatus, NegotiationEndedBy, Request, Offer, Db}
use buyseekk.Db.Action.{transaction}
use buyseekk.Db.Tables.{
  negotiates_on, completed_on, is_active_negotiation, find_offer, touch, start_negotiating,
  close_row,
}
use buyseekk.Offers.Negotiation.{
  accept_commit, reject, complete_commit, end_commit, synced_requests,
}
use buyseekk.Market.Invariant.{
  IsValid, KeepsStatus, modify_request-IsValid, modify_offer-IsValid, modify_offer_quietly-IsValid,
  reopen-IsValid, same_deals,
}

abbrev pub DbIsValid : Db → Type 0
DbIsValid db = IsValid db.requests db.offers

abbrev pub Unchanged : Db → Db → Type 0
Unchanged db db' = (db'.requests ≡ db.requests) × (db'.offers ≡ db.offers)

abbrev pub accepted_row : ℕ → Offer → Offer
accepted_row now o = record o { status = OfferStatus.aceptada; accepted_at = some now }

abbrev pub negotiating_row : ℕ → Request → Request
negotiating_row now r = touch now (start_negotiating r)

pub accept_outcome :
    (now offer_id : ℕ) (offer : Offer) (db : Db)
    → let db' = (transaction (accept_commit now offer_id offer) db).1 in
      Unchanged db db'
      ⊎ ((o : Offer) × (get_elem? db.offers offer_id ≡ some o)
          × (o.status ≡ OfferStatus.pendiente)
          × (db'.requests ≡ modify db.requests offer.request_id (negotiating_row now))
          × (db'.offers ≡ modify db.offers offer_id (accepted_row now)))
unfolding accept_commit
accept_outcome now offer_id offer db = elim (Option-cases (get_elem? db.offers offer_id)) [
  | inl missing ↦ ground arith
  | inr (o, found) ↦
      ground (arith, get_elem?-modify_self db.offers offer_id (accepted_row now) found)
]

pub touch-KeepsStatus : (now : ℕ) → KeepsStatus (touch now)
touch-KeepsStatus now = record { not_reopened = λ r h. h; stays_closed = λ r h. h }

negotiating-KeepsStatus : (now : ℕ) → KeepsStatus (negotiating_row now)
negotiating-KeepsStatus now = record {
  not_reopened = λ r h. ground arith;
  stays_closed = λ r h. ground arith;
}

pub close-KeepsStatus : (now : ℕ) → KeepsStatus (close_row now)
close-KeepsStatus now = record { not_reopened = λ r h. absurd (cc h); stays_closed = λ r h. refl }

negotiating-ne-activa :
    (now : ℕ) (r : Request) → (negotiating_row now r).status ≢ StoredRequestStatus.activa
negotiating-ne-activa now r = ground arith

-- The row of a request after an update of it.
modified_row :
    (requests : List Request) (id : ℕ) (f : Request → Request) {r : Request}
    → get_elem? (modify requests id f) id ≡ some r
    → (s : Request) × (get_elem? requests id ≡ some s) × (r ≡ f s)
modified_row requests id f h = elim (get_elem?-modify_cases requests id id f h) [
  | inl (e, w) ↦ w
  | inr (ne, old) ↦ absurd (ne refl)
]

-- An offer is accepted and its request negotiates.
pub accepted-IsValid :
    (now offer_id : ℕ) (requests : List Request) (offers : List Offer) {o : Offer}
    → get_elem? offers offer_id ≡ some o
    → o.status ≡ OfferStatus.pendiente
    → IsValid requests offers
    → IsValid
        (modify requests o.request_id (negotiating_row now))
        (modify offers offer_id (accepted_row now))
accepted-IsValid now offer_id requests offers {o} found pending v =
    let requests' = modify requests o.request_id (negotiating_row now) in
    let v' =
      modify_request-IsValid o.request_id (negotiating_row now) requests offers
        (negotiating-KeepsStatus now) v in
    let deals = same_deals offers offer_id (accepted_row now) found refl refl in
    modify_offer-IsValid offers offer_id (accepted_row now) found refl requests' v'
      (let old = v.sound offer_id found in ground arith)
      (λ r h a.
        let (s, was, image) = modified_row requests o.request_id (negotiating_row now) h in
        absurd (negotiating-ne-activa now s (ap (λ (t : Request). t.status) (sym image) ∙ a)))
      (rw deals (v'.one_deal o.request_id))
      (λ r h many. v'.deal_closed o.request_id h (rw deals at many))

pub accept_commit-IsValid :
    (now offer_id : ℕ) (offer : Offer) (db : Db)
    → ((o : Offer) → find_offer offer_id db ≡ some o → o.request_id ≡ offer.request_id)
    → DbIsValid db
    → DbIsValid (transaction (accept_commit now offer_id offer) db).1
accept_commit-IsValid now offer_id offer db same v = elim (accept_outcome now offer_id offer db) [
  | inl (r, o) ↦ rw (r, o) v
  | inr (o, found, pending, r, os) ↦
      rw (r, os, ← same o found)
        (accepted-IsValid now offer_id db.requests db.offers found pending v)
]

-- `reject` has no transaction: it updates the offer, and then its request.
abbrev pub rejected_row : Offer → Offer
rejected_row o = record o { status = OfferStatus.rechazada }

pub reject_outcome :
    (now offer_id buyer_id : ℕ) (db : Db)
    → let db' = (reject now offer_id buyer_id db).1 in
      Unchanged db db'
      ⊎ ((o : Offer) × (get_elem? db.offers offer_id ≡ some o)
          × (o.status ≡ OfferStatus.pendiente)
          × (db'.requests ≡ modify db.requests o.request_id (touch now))
          × (db'.offers ≡ modify db.offers offer_id rejected_row))
unfolding reject
reject_outcome now offer_id buyer_id db = ground arith

pub rejected_offer-IsValid :
    (offer_id : ℕ) (requests : List Request) (offers : List Offer) {o : Offer}
    → get_elem? offers offer_id ≡ some o
    → o.status ≡ OfferStatus.pendiente
    → IsValid requests offers
    → IsValid requests (modify offers offer_id rejected_row)
unfolding negotiates_on
rejected_offer-IsValid offer_id requests offers {o} found pending v =
    modify_offer_quietly-IsValid offers offer_id rejected_row found refl requests v
      (let old = v.sound offer_id found in ground arith) (ground arith) refl

rejected-IsValid :
    (now offer_id : ℕ) (requests : List Request) (offers : List Offer) {o : Offer}
    → get_elem? offers offer_id ≡ some o
    → o.status ≡ OfferStatus.pendiente
    → IsValid requests offers
    → IsValid (modify requests o.request_id (touch now)) (modify offers offer_id rejected_row)
rejected-IsValid now offer_id requests offers {o} found pending v =
    rejected_offer-IsValid offer_id (modify requests o.request_id (touch now)) offers found pending
      (modify_request-IsValid o.request_id (touch now) requests offers (touch-KeepsStatus now) v)

pub reject-IsValid :
    (now offer_id buyer_id : ℕ) (db : Db)
    → DbIsValid db
    → DbIsValid (reject now offer_id buyer_id db).1
reject-IsValid now offer_id buyer_id db v = elim (reject_outcome now offer_id buyer_id db) [
  | inl (r, o) ↦ rw (r, o) v
  | inr (o, found, pending, r, os) ↦
      rw (r, os) (rejected-IsValid now offer_id db.requests db.offers found pending v)
]

abbrev pub deal_row : ℕ → Offer → Offer
deal_row now o = record o { deal_completed_at = some now }

pub complete_outcome :
    (now offer_id request_id : ℕ) (db : Db)
    → let db' = (transaction (complete_commit now offer_id request_id) db).1 in
      Unchanged db db'
      ⊎ ((o : Offer) × (get_elem? db.offers offer_id ≡ some o)
          × (is_active_negotiation o ≡ true)
          × (count_where (completed_on o.request_id) db.offers ≡ 0)
          × (db'.requests ≡ modify db.requests request_id (close_row now))
          × (db'.offers ≡ modify db.offers offer_id (deal_row now)))
unfolding complete_commit
complete_outcome now offer_id request_id db = elim (Option-cases (get_elem? db.offers offer_id)) [
  | inl missing ↦ ground arith
  | inr (o, found) ↦ ground (arith, get_elem?-modify_self db.offers offer_id (deal_row now) found)
]

-- The deal of the only row that had none on its request.
pub completed-IsValid :
    (now offer_id : ℕ) (requests : List Request) (offers : List Offer) {o : Offer}
    → get_elem? offers offer_id ≡ some o
    → is_active_negotiation o ≡ true
    → count_where (completed_on o.request_id) offers ≡ 0
    → IsValid requests offers
    → IsValid (modify requests o.request_id (close_row now)) (modify offers offer_id (deal_row now))
unfolding is_active_negotiation completed_on
completed-IsValid now offer_id requests offers {o} found active none_yet v =
    let requests' = modify requests o.request_id (close_row now) in
    let closed : (r : Request)
        → get_elem? requests' o.request_id ≡ some r
        → r.status ≡ StoredRequestStatus.cerrada =
      λ r h.
        let (s, was, image) = modified_row requests o.request_id (close_row now) h in
        ap (λ (t : Request). t.status) image in
    modify_offer-IsValid offers offer_id (deal_row now) found refl requests'
      (modify_request-IsValid o.request_id (close_row now) requests offers (close-KeepsStatus now)
        v)
      (let old = v.sound offer_id found in ground arith) (λ r h a. absurd (cc (closed r h)))
      (ground (
        arith,
        count_where-modify (completed_on o.request_id) offers offer_id (deal_row now) found,
      ))
      (λ r h many. closed r h)

pub complete_commit-IsValid :
    (now offer_id request_id : ℕ) (db : Db)
    → ((o : Offer) → find_offer offer_id db ≡ some o → o.request_id ≡ request_id)
    → DbIsValid db
    → DbIsValid (transaction (complete_commit now offer_id request_id) db).1
complete_commit-IsValid now offer_id request_id db same v =
    elim (complete_outcome now offer_id request_id db) [
      | inl (r, o) ↦ rw (r, o) v
      | inr (o, found, active, none_yet, r, os) ↦
          rw (r, os, ← same o found)
            (completed-IsValid now offer_id db.requests db.offers found active none_yet v)
    ]

start_negotiating-KeepsStatus : KeepsStatus start_negotiating
start_negotiating-KeepsStatus = record {
  not_reopened = λ r h. ground arith;
  stays_closed = λ r h. ground arith;
}

abbrev activa_row : Request → Request
activa_row r = record r { status = StoredRequestStatus.activa }

synced_outcome :
    (id : ℕ) (requests : List Request) (offers : List Offer)
    → (synced_requests id offers requests ≡ requests)
      ⊎ (synced_requests id offers requests ≡ modify requests id start_negotiating)
      ⊎ ((r : Request) × (get_elem? requests id ≡ some r)
          × (r.status ≢ StoredRequestStatus.cerrada)
          × (count_where (negotiates_on id) offers ≡ 0)
          × (synced_requests id offers requests ≡ modify requests id activa_row))
unfolding synced_requests
synced_outcome id requests offers = ground arith

pub synced_requests-IsValid :
    (id : ℕ) (requests : List Request) (offers : List Offer)
    → IsValid requests offers
    → IsValid (synced_requests id offers requests) offers
synced_requests-IsValid id requests offers v = elim (synced_outcome id requests offers) [
  | inl same ↦ rw same v
  | inr (inl busy) ↦
      rw busy (
        modify_request-IsValid id start_negotiating requests offers start_negotiating-KeepsStatus v)
  | inr (inr (r, found, unclosed, none_open, back)) ↦
      rw back (reopen-IsValid id requests offers found unclosed none_open v)
]

abbrev pub ended_row : ℕ → NegotiationEndedBy → Offer → Offer
ended_row now by o = record o { negotiation_ended_at = some now; negotiation_ended_by = some by }

pub end_outcome :
    (now offer_id request_id : ℕ) (by : NegotiationEndedBy) (db : Db)
    → let db' = (transaction (end_commit now offer_id request_id by) db).1 in
      Unchanged db db'
      ⊎ ((o : Offer) × (get_elem? db.offers offer_id ≡ some o)
          × (is_active_negotiation o ≡ true)
          × (db'.requests
              ≡ synced_requests request_id
                  (modify db.offers offer_id (ended_row now by))
                  db.requests)
          × (db'.offers ≡ modify db.offers offer_id (ended_row now by)))
unfolding end_commit
end_outcome now offer_id request_id by db = elim (Option-cases (get_elem? db.offers offer_id)) [
  | inl missing ↦ ground arith
  | inr (o, found) ↦
      ground (arith, get_elem?-modify_self db.offers offer_id (ended_row now by) found)
]

-- Ending an open negotiation leaves the invariant as it is, since the request was not ACTIVA.
pub ended-IsValid :
    (now offer_id : ℕ) (by : NegotiationEndedBy) (requests : List Request) (offers : List Offer)
    {o : Offer}
    → get_elem? offers offer_id ≡ some o
    → is_active_negotiation o ≡ true
    → IsValid requests offers
    → IsValid requests (modify offers offer_id (ended_row now by))
unfolding is_active_negotiation negotiates_on
ended-IsValid now offer_id by requests offers {o} found active v =
    let deals = same_deals offers offer_id (ended_row now by) found refl refl in
    let busy = count_where-pos (negotiates_on o.request_id) offers offer_id found (ground arith) in
    modify_offer-IsValid offers offer_id (ended_row now by) found refl requests v
      (let old = v.sound offer_id found in ground arith)
      (λ r h a. absurd (omega (arith, busy, v.activa_free o.request_id h a)))
      (rw deals (v.one_deal o.request_id))
      (λ r h many. v.deal_closed o.request_id h (rw deals at many))

pub end_commit-IsValid :
    (now offer_id request_id : ℕ) (by : NegotiationEndedBy) (db : Db)
    → DbIsValid db
    → DbIsValid (transaction (end_commit now offer_id request_id by) db).1
end_commit-IsValid now offer_id request_id by db v =
    elim (end_outcome now offer_id request_id by db) [
      | inl (r, o) ↦ rw (r, o) v
      | inr (o, found, active, r, os) ↦
          rw (r, os)
            (synced_requests-IsValid request_id db.requests
              (modify db.offers offer_id (ended_row now by))
              (ended-IsValid now offer_id by db.requests db.offers found active v))
    ]
