-- ===== src/Market/Invariant.antt =====
-- The invariant of the tables Request and Offer, and the two updates by which they change.
use buyseekk.Prelude.{
  ℕ, ◌+◌, ◌≤◌, ◌≡◌, ◌≢◌, refl, sym, ◌∙◌, ap, inl, inr, true, none, some, List, [], ◌∷◌, ◌++◌,
  is_some, get_elem?, modify, count_where, count_where-modify, count_where-append,
  get_elem?-modify_cases, get_elem?-append_one, arith,
}
use native.Mathlib.Decide.{ℕ_discrete}
use buyseekk.Shared.RequestStatus.{StoredRequestStatus}
use buyseekk.Db.Schema.{OfferStatus, Request, Offer}
use buyseekk.Db.Tables.{negotiates_on, completed_on}

-- An offer's own fields fit together: a deal is an accepted offer whose negotiation was not ended,
-- and only the negotiation of an accepted offer is ended.
pub record OfferIsSound (o : Offer) : Type 0 where
  pub deal_accepted :
      is_some o.deal_completed_at ≡ true
      → (o.status ≡ OfferStatus.aceptada) × (o.negotiation_ended_at ≡ none)
  pub ended_accepted : is_some o.negotiation_ended_at ≡ true → o.status ≡ OfferStatus.aceptada

-- A request whose status is ACTIVA has no open negotiation, a request has at most one completed deal,
-- and is closed once it has one.
pub record IsValid (requests : List Request) (offers : List Offer) : Type 0 where
  pub sound : (id : ℕ) {o : Offer} → get_elem? offers id ≡ some o → OfferIsSound o
  pub activa_free :
      (id : ℕ) {r : Request}
      → get_elem? requests id ≡ some r
      → r.status ≡ StoredRequestStatus.activa
      → count_where (negotiates_on id) offers ≡ 0
  pub one_deal : (id : ℕ) → count_where (completed_on id) offers ≤ 1
  pub deal_closed :
      (id : ℕ) {r : Request}
      → get_elem? requests id ≡ some r
      → 0 + 1 ≤ count_where (completed_on id) offers
      → r.status ≡ StoredRequestStatus.cerrada

-- Without offers every table of requests is in order.
pub no_offers-IsValid : (requests : List Request) → IsValid requests []
no_offers-IsValid requests = record {
  sound = λ id h. absurd (cc h);
  activa_free = λ id h a. refl;
  one_deal = λ id. omega arith;
  deal_closed = λ id h many. absurd (omega (arith, many));
}

-- An update of a request that does not make it ACTIVA, and that leaves it closed if it is.
pub record KeepsStatus (f : Request → Request) : Type 0 where
  pub not_reopened :
      (r : Request)
      → (f r).status ≡ StoredRequestStatus.activa
      → r.status ≡ StoredRequestStatus.activa
  pub stays_closed :
      (r : Request)
      → r.status ≡ StoredRequestStatus.cerrada
      → (f r).status ≡ StoredRequestStatus.cerrada

pub modify_request-IsValid :
    (id : ℕ) (f : Request → Request) (requests : List Request) (offers : List Offer)
    → KeepsStatus f
    → IsValid requests offers
    → IsValid (modify requests id f) offers
modify_request-IsValid id f requests offers k v = record {
  sound = v.sound;
  activa_free = λ j h a. elim (get_elem?-modify_cases requests id j f h) [
    | inl (e, (r, found, image)) ↦
        rw (← e) (
          v.activa_free id found
            (k.not_reopened r (ap (λ (s : Request). s.status) (sym image) ∙ a)))
    | inr (ne, old) ↦ v.activa_free j old a
  ];
  one_deal = v.one_deal;
  deal_closed = λ j h d. elim (get_elem?-modify_cases requests id j f h) [
    | inl (e, (r, found, image)) ↦ rw image (k.stays_closed r (v.deal_closed id found (rw e d)))
    | inr (ne, old) ↦ v.deal_closed j old d
  ];
}

module _ (offers : List Offer) (offer_id : ℕ) (f : Offer → Offer) {o : Offer}
    (found : get_elem? offers offer_id ≡ some o) (same : (f o).request_id ≡ o.request_id) where
  -- The counts of the other requests do not change.
  pub other_counts :
      (id : ℕ)
      → id ≢ o.request_id
      → (count_where (negotiates_on id) (modify offers offer_id f)
          ≡ count_where (negotiates_on id) offers)
        × (count_where (completed_on id) (modify offers offer_id f)
            ≡ count_where (completed_on id) offers)
  unfolding negotiates_on completed_on
  other_counts id ne = ground (
    arith,
    count_where-modify (negotiates_on id) offers offer_id f found,
    count_where-modify (completed_on id) offers offer_id f found,
  )

  pub modify_offer-IsValid :
      (requests : List Request)
      → IsValid requests offers
      → OfferIsSound (f o)
      → ((r : Request)
          → get_elem? requests o.request_id ≡ some r
          → r.status ≡ StoredRequestStatus.activa
          → count_where (negotiates_on o.request_id) (modify offers offer_id f) ≡ 0)
      → count_where (completed_on o.request_id) (modify offers offer_id f) ≤ 1
      → ((r : Request)
          → get_elem? requests o.request_id ≡ some r
          → 0 + 1 ≤ count_where (completed_on o.request_id) (modify offers offer_id f)
          → r.status ≡ StoredRequestStatus.cerrada)
      → IsValid requests (modify offers offer_id f)
  modify_offer-IsValid requests v new_sound free one closed = record {
    sound = λ j h. elim (get_elem?-modify_cases offers offer_id j f h) [
      | inl (e, (a, was, image)) ↦ let same_row : a ≡ o = cc in rw (image, same_row) new_sound
      | inr (ne, old) ↦ v.sound j old
    ];
    activa_free = λ id {r} h a. elim (ℕ_discrete id o.request_id) [
      | yes e ↦ rw e (free r (rw e at h) a)
      | no ne ↦ rw (other_counts id ne).0 (v.activa_free id h a)
    ];
    one_deal = λ id. elim (ℕ_discrete id o.request_id) [
      | yes e ↦ rw e one
      | no ne ↦ rw (other_counts id ne).1 (v.one_deal id)
    ];
    deal_closed = λ id {r} h d. elim (ℕ_discrete id o.request_id) [
      | yes e ↦ closed r (rw e at h) (rw e at d)
      | no ne ↦ v.deal_closed id h (rw (other_counts id ne).1 at d)
    ];
  }

  pub same_negotiations :
      negotiates_on o.request_id (f o) ≡ negotiates_on o.request_id o
      → count_where (negotiates_on o.request_id) (modify offers offer_id f)
        ≡ count_where (negotiates_on o.request_id) offers
  same_negotiations n =
      ground (arith, count_where-modify (negotiates_on o.request_id) offers offer_id f found)

  pub same_deals :
      (f o).deal_completed_at ≡ o.deal_completed_at
      → count_where (completed_on o.request_id) (modify offers offer_id f)
        ≡ count_where (completed_on o.request_id) offers
  unfolding completed_on
  same_deals d =
      ground (arith, count_where-modify (completed_on o.request_id) offers offer_id f found)

  -- An update after which the row is still sound, and that leaves its negotiation and deal alone.
  pub modify_offer_quietly-IsValid :
      (requests : List Request)
      → IsValid requests offers
      → OfferIsSound (f o)
      → negotiates_on o.request_id (f o) ≡ negotiates_on o.request_id o
      → (f o).deal_completed_at ≡ o.deal_completed_at
      → IsValid requests (modify offers offer_id f)
  modify_offer_quietly-IsValid requests v new_sound n d =
      let negotiations = same_negotiations n in
      let deals = same_deals d in
      modify_offer-IsValid requests v new_sound
        (λ r h a. rw negotiations (v.activa_free o.request_id h a))
        (rw deals (v.one_deal o.request_id))
        (λ r h many. v.deal_closed o.request_id h (rw deals at many))

-- A request may become ACTIVA again once no negotiation on it is open.
pub reopen-IsValid :
    (id : ℕ) (requests : List Request) (offers : List Offer) {r : Request}
    → get_elem? requests id ≡ some r
    → r.status ≢ StoredRequestStatus.cerrada
    → count_where (negotiates_on id) offers ≡ 0
    → IsValid requests offers
    → IsValid (modify requests id (λ s. record s { status = StoredRequestStatus.activa })) offers
reopen-IsValid id requests offers found open_still none_open v = record {
  sound = v.sound;
  activa_free = λ j h a.
      elim (get_elem?-modify_cases requests id j
        (λ s. record s { status = StoredRequestStatus.activa }) h) [
          | inl (e, w) ↦ rw (← e) none_open
          | inr (ne, old) ↦ v.activa_free j old a
        ];
  one_deal = v.one_deal;
  deal_closed = λ j h d.
      elim (get_elem?-modify_cases requests id j
        (λ s. record s { status = StoredRequestStatus.activa }) h) [
          | inl (e, (s, was, image)) ↦ absurd (open_still (v.deal_closed id found (rw e d)))
          | inr (ne, old) ↦ v.deal_closed j old d
        ];
}

-- A new offer, still pending, at the end of the table.
pub append_offer-IsValid :
    (requests : List Request) (offers : List Offer) (o : Offer)
    → o.status ≡ OfferStatus.pendiente
    → o.deal_completed_at ≡ none
    → o.negotiation_ended_at ≡ none
    → IsValid requests offers
    → IsValid requests (offers ++ o ∷ [])
unfolding negotiates_on completed_on
append_offer-IsValid requests offers o s d e v =
    let negotiations : (id : ℕ)
        → count_where (negotiates_on id) (offers ++ o ∷ [])
          ≡ count_where (negotiates_on id) offers =
      λ id. ground (arith, count_where-append (negotiates_on id) offers (o ∷ [])) in
    let deals : (id : ℕ)
        → count_where (completed_on id) (offers ++ o ∷ []) ≡ count_where (completed_on id) offers =
      λ id. ground (arith, count_where-append (completed_on id) offers (o ∷ [])) in
    record {
      sound = λ id h. elim (get_elem?-append_one offers o id h) [
        | inl old ↦ v.sound id old
        | inr (at, new) ↦ rw new (ground arith)
      ];
      activa_free = λ id h a. rw (negotiations id) (v.activa_free id h a);
      one_deal = λ id. rw (deals id) (v.one_deal id);
      deal_closed = λ id h many. v.deal_closed id h (rw (deals id) at many);
    }
