-- ===== src/Market/Requests.antt =====
-- The single writes on a request and the marks on an offer against the invariant.
use buyseekk.Prelude.{
  ℕ, ◌≡◌, ◌≢◌, sym, ap, inl, inr, List, get_elem?, modify, update_where, count_where-update_same,
  get_elem?-update_where, get_elem?-modify_cases, modify-out_of_range, Option-cases, arith,
  if◌then◌else◌,
}
use buyseekk.Db.Schema.{RequestTerms, Request, Offer, Db}
use buyseekk.Db.Tables.{negotiates_on, completed_on, touch, close_row, start_negotiating}
use buyseekk.Requests.Lifecycle.{close_commit, end_by_buyer, renew_row, pause_row, deactivate}
use buyseekk.Requests.Edit.{edited_row}
use buyseekk.Market.Invariant.{
  OfferIsSound, IsValid, KeepsStatus, modify_request-IsValid, modify_offer_quietly-IsValid,
}
use buyseekk.Market.Negotiation.{DbIsValid, close-KeepsStatus}

module _ (now id : ℕ) where
  abbrev ended : Offer → Offer
  ended o = if negotiates_on id o then end_by_buyer now o else o

  ended-OfferIsSound : (o : Offer) → OfferIsSound o → OfferIsSound (ended o)
  unfolding negotiates_on
  ended-OfferIsSound o s = ground arith

  ended_negotiates : (j : ℕ) → j ≢ id → (o : Offer) → negotiates_on j (ended o) ≡ negotiates_on j o
  unfolding negotiates_on
  ended_negotiates j ne o = ground arith

  ended_completed : (j : ℕ) (o : Offer) → completed_on j (ended o) ≡ completed_on j o
  unfolding completed_on negotiates_on
  ended_completed j o = ground arith

pub close_commit-IsValid :
    (now id : ℕ) (db : Db) → DbIsValid db → DbIsValid (close_commit now id db)
unfolding close_commit
close_commit-IsValid now id db v =
    let offers' = update_where (negotiates_on id) (end_by_buyer now) db.offers in
    let v' =
      modify_request-IsValid id (close_row now) db.requests db.offers (close-KeepsStatus now) v in
    let deals = λ (j : ℕ).
      count_where-update_same (completed_on j) (negotiates_on id) (end_by_buyer now)
        (ended_completed now id j) db.offers in
    record {
      sound = λ j h.
          let (o, was, image) =
            get_elem?-update_where (negotiates_on id) (end_by_buyer now) db.offers j h in
          rw image (ended-OfferIsSound now id o (v.sound j was));
      activa_free = λ j h a. elim (get_elem?-modify_cases db.requests id j (close_row now) h) [
        | inl (e, (r, was, image)) ↦ absurd (cc (ap (λ (t : Request). t.status) image))
        | inr (ne, old) ↦
            rw
              (count_where-update_same (negotiates_on j) (negotiates_on id) (end_by_buyer now)
                (ended_negotiates now id j (λ e. ne (sym e))) db.offers)
              (v.activa_free j old a)
      ];
      one_deal = λ j. rw (deals j) (v.one_deal j);
      deal_closed = λ j h many. v'.deal_closed j h (rw (deals j) at many);
    }

pub renew-KeepsStatus : (now : ℕ) → KeepsStatus (renew_row now)
renew-KeepsStatus now = record { not_reopened = λ r h. h; stays_closed = λ r h. h }

pub pause-KeepsStatus : (now : ℕ) → KeepsStatus (pause_row now)
pause-KeepsStatus now = record { not_reopened = λ r h. h; stays_closed = λ r h. h }

pub edited-KeepsStatus : (now : ℕ) (terms : RequestTerms) → KeepsStatus (edited_row now terms)
edited-KeepsStatus now terms = record { not_reopened = λ r h. h; stays_closed = λ r h. h }

pub deactivate-KeepsStatus : KeepsStatus deactivate
deactivate-KeepsStatus = record { not_reopened = λ r h. h; stays_closed = λ r h. h }

pub talk-KeepsStatus : (now : ℕ) → KeepsStatus (λ r. start_negotiating (touch now r))
talk-KeepsStatus now = record {
  not_reopened = λ r h. ground arith;
  stays_closed = λ r h. ground arith;
}

-- The marks on an offer, which leave the negotiation of an offer alone.
pub record IsMark (f : Offer → Offer) : Type 0 where
  pub same_request : (o : Offer) → (f o).request_id ≡ o.request_id
  pub same_status : (o : Offer) → (f o).status ≡ o.status
  pub same_deal : (o : Offer) → (f o).deal_completed_at ≡ o.deal_completed_at
  pub same_end : (o : Offer) → (f o).negotiation_ended_at ≡ o.negotiation_ended_at

pub mark-IsValid :
    (offer_id : ℕ) (f : Offer → Offer) (requests : List Request) (offers : List Offer)
    → IsMark f
    → IsValid requests offers
    → IsValid requests (modify offers offer_id f)
unfolding negotiates_on
mark-IsValid offer_id f requests offers m v = elim (Option-cases (get_elem? offers offer_id)) [
  | inl missing ↦ rw (modify-out_of_range offers offer_id f missing) v
  | inr (o, found) ↦
      let old = v.sound offer_id found in
      let status = m.same_status o in
      let deal = m.same_deal o in
      let end = m.same_end o in
      let request = m.same_request o in
      modify_offer_quietly-IsValid offers offer_id f found request requests v (ground arith)
        (ground arith) deal
]
