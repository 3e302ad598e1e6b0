-- ===== src/Market/History.antt =====
-- What time cannot take back: the offers' table under every write of the three services.
use buyseekk.Prelude.{
  ℕ, zero, suc, ◌≡◌, ◌≢◌, refl, sym, ◌∙◌, Bool, true, Option, some, List, [], ◌∷◌, ◌++◌, get_elem?,
  modify, update_where, get_elem?-modify_self, get_elem?-modify_ne, arith, if◌then◌else◌,
}
use native.Mathlib.Decide.{ℕ_discrete}
use buyseekk.Db.Schema.{OfferStatus, NegotiationEndedBy, Offer}
use buyseekk.Db.Tables.{negotiates_on, is_active_negotiation}
use buyseekk.Requests.Lifecycle.{end_by_buyer}

-- An offer as it was and as it is later: its request, its seller and its content are the same, a
-- decision on it is final, and a deal or an end keeps its date.
pub record Grows (o o' : Offer) : Type 0 where
  pub same_request : o'.request_id ≡ o.request_id
  pub same_seller : o'.seller_id ≡ o.seller_id
  pub same_terms : o'.terms ≡ o.terms
  pub same_snapshot : o'.snapshot ≡ o.snapshot
  pub settled : o.status ≢ OfferStatus.pendiente → o'.status ≡ o.status
  pub deal_stays : {t : ℕ} → o.deal_completed_at ≡ some t → o'.deal_completed_at ≡ some t
  pub end_stays : {t : ℕ} → o.negotiation_ended_at ≡ some t → o'.negotiation_ended_at ≡ some t

pub Grows-refl : (o : Offer) → Grows o o
Grows-refl o = record {
  same_request = refl;
  same_seller = refl;
  same_terms = refl;
  same_snapshot = refl;
  settled = λ h. refl;
  deal_stays = λ h. h;
  end_stays = λ h. h;
}

Grows-trans : {a b c : Offer} → Grows a b → Grows b c → Grows a c
Grows-trans {a} {b} {c} g h = record {
  same_request = h.same_request ∙ g.same_request;
  same_seller = h.same_seller ∙ g.same_seller;
  same_terms = h.same_terms ∙ g.same_terms;
  same_snapshot = h.same_snapshot ∙ g.same_snapshot;
  settled = λ s. let e = g.settled s in h.settled (λ p. s (sym e ∙ p)) ∙ e;
  deal_stays = λ d. h.deal_stays (g.deal_stays d);
  end_stays = λ d. h.end_stays (g.end_stays d);
}

-- No row is lost, and every row grows.
abbrev pub Grown : List Offer → List Offer → Type 0
Grown offers offers' =
    (i : ℕ) (o : Offer)
    → get_elem? offers i ≡ some o
    → (o' : Offer) × (get_elem? offers' i ≡ some o') × Grows o o'

pub Grown-refl : (offers : List Offer) → Grown offers offers
Grown-refl offers i o h = (o, h, Grows-refl o)

pub Grown-trans : (a b c : List Offer) → Grown a b → Grown b c → Grown a c
Grown-trans a b c f g i o h =
    let (o', at, first) = f i o h in
    let (o'', at', second) = g i o' at in (o'', at', Grows-trans first second)

pub modify-Grown :
    (offers : List Offer) (id : ℕ) (f : Offer → Offer)
    → ((o : Offer) → get_elem? offers id ≡ some o → Grows o (f o))
    → Grown offers (modify offers id f)
modify-Grown offers id f g i o h = elim (ℕ_discrete i id) [
  | yes e ↦
      let here : get_elem? offers id ≡ some o = rw e at h in
      (f o, rw e (get_elem?-modify_self offers id f here), g o here)
  | no ne ↦ (o, get_elem?-modify_ne offers id i f (λ e. ne (sym e)) ∙ h, Grows-refl o)
]

pub modify_row-Grown :
    (offers : List Offer) (id : ℕ) (f : Offer → Offer) {o : Offer}
    → get_elem? offers id ≡ some o
    → Grows o (f o)
    → Grown offers (modify offers id f)
modify_row-Grown offers id f {o} found g =
    modify-Grown offers id f (λ a was. let e : a ≡ o = cc in rw e g)

pub update_where-Grown :
    (offers : List Offer) (p : Offer → Bool) (f : Offer → Offer)
    → ((o : Offer) → Grows o (if p o then f o else o))
    → Grown offers (update_where p f offers)
update_where-Grown [] p f g i o h = absurd (cc h)
update_where-Grown (x ∷ xs) p f g zero o h =
    let e : x ≡ o = cc in (if p o then f o else o, rw e refl, g o)
update_where-Grown (x ∷ xs) p f g (suc i) o h = update_where-Grown xs p f g i o h

pub append-Grown : (offers new : List Offer) → Grown offers (offers ++ new)
append-Grown [] new i o h = absurd (cc h)
append-Grown (x ∷ xs) new zero o h = (o, h, Grows-refl o)
append-Grown (x ∷ xs) new (suc i) o h = append-Grown xs new i o h

module _ {o : Offer} where
  -- A decision on a pending offer.
  pub decided-Grows :
      (s : OfferStatus) (at : Option ℕ)
      → o.status ≡ OfferStatus.pendiente
      → Grows o (record o { status = s; accepted_at = at })
  decided-Grows s at p = record {
    same_request = refl;
    same_seller = refl;
    same_terms = refl;
    same_snapshot = refl;
    settled = λ h. absurd (h p);
    deal_stays = λ h. h;
    end_stays = λ h. h;
  }

  -- A deal on an open negotiation.
  pub deal-Grows :
      (now : ℕ)
      → is_active_negotiation o ≡ true
      → Grows o (record o { deal_completed_at = some now })
  unfolding is_active_negotiation
  deal-Grows now a = record {
    same_request = refl;
    same_seller = refl;
    same_terms = refl;
    same_snapshot = refl;
    settled = λ h. refl;
    deal_stays = λ h. absurd (ground arith);
    end_stays = λ h. h;
  }

  -- The end of an open negotiation.
  pub end-Grows :
      (now : ℕ) (by : NegotiationEndedBy)
      → is_active_negotiation o ≡ true
      → Grows o (record o { negotiation_ended_at = some now; negotiation_ended_by = some by })
  unfolding is_active_negotiation
  end-Grows now by a = record {
    same_request = refl;
    same_seller = refl;
    same_terms = refl;
    same_snapshot = refl;
    settled = λ h. refl;
    deal_stays = λ h. h;
    end_stays = λ h. absurd (ground arith);
  }

pub closed-Grown :
    (now id : ℕ) (offers : List Offer)
    → Grown offers (update_where (negotiates_on id) (end_by_buyer now) offers)
unfolding negotiates_on is_active_negotiation
closed-Grown now id offers = update_where-Grown offers (negotiates_on id) (end_by_buyer now) (λ o.
    record {
      same_request = ground arith;
      same_seller = ground arith;
      same_terms = ground arith;
      same_snapshot = ground arith;
      settled = λ h. ground arith;
      deal_stays = λ h. ground arith;
      end_stays = λ h. ground arith;
    })
