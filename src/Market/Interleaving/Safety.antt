-- ===== src/Market/Interleaving/Safety.antt =====
-- What the interleavings do to the offers: none is lost or reopened, and a request has one deal.
use buyseekk.Prelude.{
  ℕ, ◌≤◌, count_where, List, ◌≡◌, refl, ◌⊎◌, inl, inr, some, [], ◌∷◌, modify, get_elem?, arith,
}
use buyseekk.Db.Schema.{OfferStatus, NegotiationEndedBy, Request, Offer, Db}
use buyseekk.Db.Action.{transaction}
use buyseekk.Db.Tables.{completed_on}
use buyseekk.Offers.Create.{CreateOfferDto, new_offer, insert_offer}
use buyseekk.Offers.Create.Laws.{insert_offer-cases}
use buyseekk.Offers.Negotiation.{accept_commit, complete_commit, end_commit}
use buyseekk.Requests.Lifecycle.{close_commit}
use buyseekk.Market.Invariant.{OfferIsSound, IsValid, append_offer-IsValid}
use buyseekk.Market.Negotiation.{
  Unchanged, rejected_row, accepted_row, deal_row, ended_row, accept_outcome, complete_outcome,
  end_outcome, accepted-IsValid, completed-IsValid, ended-IsValid, rejected_offer-IsValid,
}
use buyseekk.Market.Requests.{close_commit-IsValid, IsMark, mark-IsValid}
use buyseekk.Market.Moves.{dismissed-IsMark, buyer_deleted-IsMark, seller_deleted-IsMark}
use buyseekk.Market.History.{
  Grows, Grown, Grown-refl, Grown-trans, modify-Grown, modify_row-Grown, append-Grown, closed-Grown,
  decided-Grows, deal-Grows, end-Grows,
}
use buyseekk.Market.Interleaving.{OfferMark, mark_row, reject_update, Run}

accept_commit-Grown :
    (now offer_id : ℕ) (offer : Offer) (db : Db)
    → Grown db.offers (transaction (accept_commit now offer_id offer) db).1.offers
accept_commit-Grown now offer_id offer db = elim (accept_outcome now offer_id offer db) [
  | inl (r, same) ↦ rw same (Grown-refl db.offers)
  | inr (o, found, pending, r, os) ↦ rw os (
      modify_row-Grown db.offers offer_id (accepted_row now) found
        (decided-Grows OfferStatus.aceptada (some now) pending))
]

complete_commit-Grown :
    (now offer_id request_id : ℕ) (db : Db)
    → Grown db.offers (transaction (complete_commit now offer_id request_id) db).1.offers
complete_commit-Grown now offer_id request_id db =
    elim (complete_outcome now offer_id request_id db) [
      | inl (r, same) ↦ rw same (Grown-refl db.offers)
      | inr (o, found, active, none_yet, r, os) ↦
          rw os (modify_row-Grown db.offers offer_id (deal_row now) found (deal-Grows now active))
    ]

end_commit-Grown :
    (now offer_id request_id : ℕ) (by : NegotiationEndedBy) (db : Db)
    → Grown db.offers (transaction (end_commit now offer_id request_id by) db).1.offers
end_commit-Grown now offer_id request_id by db = elim (end_outcome now offer_id request_id by db) [
  | inl (r, same) ↦ rw same (Grown-refl db.offers)
  | inr (o, found, active, r, os) ↦
      rw os (modify_row-Grown db.offers offer_id (ended_row now by) found (end-Grows now by active))
]

reject_update_outcome :
    (offer_id : ℕ) (db : Db)
    → let db' = reject_update offer_id db in
      Unchanged db db'
      ⊎ ((o : Offer) × (get_elem? db.offers offer_id ≡ some o)
          × (o.status ≡ OfferStatus.pendiente)
          × (db'.requests ≡ db.requests)
          × (db'.offers ≡ modify db.offers offer_id rejected_row))
unfolding reject_update
reject_update_outcome offer_id db = ground arith

reject_update-Grown : (offer_id : ℕ) (db : Db) → Grown db.offers (reject_update offer_id db).offers
reject_update-Grown offer_id db = elim (reject_update_outcome offer_id db) [
  | inl (r, same) ↦ rw same (Grown-refl db.offers)
  | inr (o, found, pending, r, os) ↦ rw os (
      modify_row-Grown db.offers offer_id rejected_row found
        (decided-Grows OfferStatus.rechazada o.accepted_at pending))
]

insert_offer-Grown : (o : Offer) (db : Db) → Grown db.offers (insert_offer o db).1.offers
insert_offer-Grown o db = elim (insert_offer-cases o db) [
  | inl taken ↦ rw taken (Grown-refl db.offers)
  | inr fresh ↦ rw fresh (append-Grown db.offers (o ∷ []))
]

mark-Grows : (m : OfferMark) (o : Offer) → Grows o (mark_row m o)
mark-Grows OfferMark.dismissed o = record {
  same_request = refl;
  same_seller = refl;
  same_terms = refl;
  same_snapshot = refl;
  settled = λ h. refl;
  deal_stays = λ h. h;
  end_stays = λ h. h;
}
mark-Grows (OfferMark.buyer_deleted now) o = record {
  same_request = refl;
  same_seller = refl;
  same_terms = refl;
  same_snapshot = refl;
  settled = λ h. refl;
  deal_stays = λ h. h;
  end_stays = λ h. h;
}
mark-Grows (OfferMark.seller_deleted now) o = record {
  same_request = refl;
  same_seller = refl;
  same_terms = refl;
  same_snapshot = refl;
  settled = λ h. refl;
  deal_stays = λ h. h;
  end_stays = λ h. h;
}

-- In every interleaving of the services' writes an offer keeps its request, seller, terms and
-- snapshot, an accepted or rejected offer keeps its status, and the dates of a completed deal and of
-- an ended negotiation stay: no offer is lost or reopened.
pub run-Grown : (a b : Db) → Run a b → Grown a.offers b.offers
unfolding close_commit
run-Grown a _ Run.idle = Grown-refl a.offers
run-Grown a _ (Run.accepts {seen} {b} before after now offer_id offer found) =
    Grown-trans a.offers b.offers _
      (Grown-trans a.offers seen.offers b.offers (run-Grown a seen before) (run-Grown seen b after))
      (accept_commit-Grown now offer_id offer b)
run-Grown a _ (Run.completes {seen} {b} before after now offer_id offer found) =
    Grown-trans a.offers b.offers _
      (Grown-trans a.offers seen.offers b.offers (run-Grown a seen before) (run-Grown seen b after))
      (complete_commit-Grown now offer_id offer.request_id b)
run-Grown a _ (Run.ends {b} run now offer_id request_id by) =
    Grown-trans a.offers b.offers _ (run-Grown a b run)
      (end_commit-Grown now offer_id request_id by b)
run-Grown a _ (Run.rejects {b} run offer_id) =
    Grown-trans a.offers b.offers _ (run-Grown a b run) (reject_update-Grown offer_id b)
run-Grown a _ (Run.closes {b} run now id) =
    Grown-trans a.offers b.offers _ (run-Grown a b run) (closed-Grown now id b.offers)
run-Grown a _ (Run.creates {b} run now request seller_id dto message) =
    Grown-trans a.offers b.offers _ (run-Grown a b run)
      (insert_offer-Grown (new_offer now request seller_id dto message) b)
run-Grown a _ (Run.rewrites {b} run rs) = run-Grown a b run
run-Grown a _ (Run.marks {b} run m id) =
    Grown-trans a.offers b.offers _ (run-Grown a b run)
      (modify-Grown b.offers id (mark_row m) (λ o was. mark-Grows m o))
run-Grown a c (Run.elsewhere {b} run (r, o)) = rw o (run-Grown a b run)

-- The offers of a database that no interleaving of the services leaves: each offer's own fields fit together, and a
-- request has at most one completed deal.
pub record DealsAreSound (offers : List Offer) : Type 0 where
  pub sound : (id : ℕ) {o : Offer} → get_elem? offers id ≡ some o → OfferIsSound o
  pub one_deal : (id : ℕ) → count_where (completed_on id) offers ≤ 1

-- The invariant of the two tables, where no request is looked at.
without_requests : (offers : List Offer) → DealsAreSound offers → IsValid [] offers
without_requests offers d = record {
  sound = d.sound;
  activa_free = λ id h a. absurd (cc h);
  one_deal = d.one_deal;
  deal_closed = λ id h many. absurd (cc h);
}

of_IsValid : (offers : List Offer) → IsValid [] offers → DealsAreSound offers
of_IsValid offers v = record { sound = v.sound; one_deal = v.one_deal }

mark_row-IsMark : (m : OfferMark) → IsMark (mark_row m)
mark_row-IsMark OfferMark.dismissed = dismissed-IsMark
mark_row-IsMark (OfferMark.buyer_deleted now) = buyer_deleted-IsMark now
mark_row-IsMark (OfferMark.seller_deleted now) = seller_deleted-IsMark now

abbrev KeepsDeals : Db → Db → Type 0
KeepsDeals db db' = IsValid [] db.offers → IsValid [] db'.offers

accept_commit-KeepsDeals :
    (now offer_id : ℕ) (offer : Offer) (db : Db)
    → KeepsDeals db (transaction (accept_commit now offer_id offer) db).1
accept_commit-KeepsDeals now offer_id offer db v = elim (accept_outcome now offer_id offer db) [
  | inl (r, same) ↦ rw same v
  | inr (o, found, pending, r, os) ↦
      rw os (accepted-IsValid now offer_id [] db.offers found pending v)
]

complete_commit-KeepsDeals :
    (now offer_id request_id : ℕ) (db : Db)
    → KeepsDeals db (transaction (complete_commit now offer_id request_id) db).1
complete_commit-KeepsDeals now offer_id request_id db v =
    elim (complete_outcome now offer_id request_id db) [
      | inl (r, same) ↦ rw same v
      | inr (o, found, active, none_yet, r, os) ↦
          rw os (completed-IsValid now offer_id [] db.offers found active none_yet v)
    ]

end_commit-KeepsDeals :
    (now offer_id request_id : ℕ) (by : NegotiationEndedBy) (db : Db)
    → KeepsDeals db (transaction (end_commit now offer_id request_id by) db).1
end_commit-KeepsDeals now offer_id request_id by db v =
    elim (end_outcome now offer_id request_id by db) [
      | inl (r, same) ↦ rw same v
      | inr (o, found, active, r, os) ↦
          rw os (ended-IsValid now offer_id by [] db.offers found active v)
    ]

reject_update-KeepsDeals : (offer_id : ℕ) (db : Db) → KeepsDeals db (reject_update offer_id db)
reject_update-KeepsDeals offer_id db v = elim (reject_update_outcome offer_id db) [
  | inl (r, same) ↦ rw same v
  | inr (o, found, pending, r, os) ↦
      rw os (rejected_offer-IsValid offer_id [] db.offers found pending v)
]

close_commit-KeepsDeals : (now id : ℕ) (db : Db) → KeepsDeals db (close_commit now id db)
unfolding close_commit
close_commit-KeepsDeals now id db v = close_commit-IsValid now id (record db { requests = [] }) v

insert_offer-KeepsDeals :
    (now : ℕ) (request : Request) (seller_id : ℕ) (dto : CreateOfferDto) (message : List ℕ)
    (db : Db)
    → KeepsDeals db (insert_offer (new_offer now request seller_id dto message) db).1
unfolding new_offer
insert_offer-KeepsDeals now request seller_id dto message db v =
    elim (insert_offer-cases (new_offer now request seller_id dto message) db) [
      | inl taken ↦ rw taken v
      | inr fresh ↦ rw fresh (
          append_offer-IsValid [] db.offers (new_offer now request seller_id dto message) refl refl
            refl v)
    ]

run-KeepsDeals : (a b : Db) → Run a b → KeepsDeals a b
run-KeepsDeals a _ Run.idle v = v
run-KeepsDeals a _ (Run.accepts {seen} {b} before after now offer_id offer found) v =
    accept_commit-KeepsDeals now offer_id offer b
      (run-KeepsDeals seen b after (run-KeepsDeals a seen before v))
run-KeepsDeals a _ (Run.completes {seen} {b} before after now offer_id offer found) v =
    complete_commit-KeepsDeals now offer_id offer.request_id b
      (run-KeepsDeals seen b after (run-KeepsDeals a seen before v))
run-KeepsDeals a _ (Run.ends {b} run now offer_id request_id by) v =
    end_commit-KeepsDeals now offer_id request_id by b (run-KeepsDeals a b run v)
run-KeepsDeals a _ (Run.rejects {b} run offer_id) v =
    reject_update-KeepsDeals offer_id b (run-KeepsDeals a b run v)
run-KeepsDeals a _ (Run.closes {b} run now id) v =
    close_commit-KeepsDeals now id b (run-KeepsDeals a b run v)
run-KeepsDeals a _ (Run.creates {b} run now request seller_id dto message) v =
    insert_offer-KeepsDeals now request seller_id dto message b (run-KeepsDeals a b run v)
run-KeepsDeals a _ (Run.rewrites {b} run rs) v = run-KeepsDeals a b run v
run-KeepsDeals a _ (Run.marks {b} run m id) v =
    mark-IsValid id (mark_row m) [] b.offers (mark_row-IsMark m) (run-KeepsDeals a b run v)
run-KeepsDeals a c (Run.elsewhere {b} run (r, o)) v = rw o (run-KeepsDeals a b run v)

-- In every interleaving of the services' writes of offers, with checks made on states that are out of date and whatever
-- becomes of the requests meanwhile: if each request had at most one completed deal, only accepted offers had a deal or
-- an ended negotiation, and no ended negotiation had a deal, that is still so.
pub run-DealsAreSound : (a b : Db) → Run a b → DealsAreSound a.offers → DealsAreSound b.offers
run-DealsAreSound a b run d =
    of_IsValid b.offers (run-KeepsDeals a b run (without_requests a.offers d))
