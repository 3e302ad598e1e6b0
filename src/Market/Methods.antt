-- ===== src/Market/Methods.antt =====
-- The methods accept, complete and endNegotiation of offers.service.ts, from the first read to the
-- last write, against the invariant.
use buyseekk.Prelude.{ℕ, ◌≡◌, ◌⊎◌, inl, inr, none, some, arith, Option-cases, ap}
use buyseekk.Db.Schema.{Request, Offer, Db}
use buyseekk.Db.Action.{transaction}
use buyseekk.Db.Tables.{find_offer, find_request}
use buyseekk.Offers.Negotiation.{
  accept_commit, accept, complete_commit, complete, end_commit, ended_by, run_end, end_negotiation,
}
use buyseekk.Market.Negotiation.{
  DbIsValid, Unchanged, accept_commit-IsValid, complete_commit-IsValid, end_commit-IsValid,
}

pub Unchanged-IsValid : (db db' : Db) → Unchanged db db' → DbIsValid db → DbIsValid db'
Unchanged-IsValid db db' (r, o) v = rw (r, o) v

pub accept_path :
    (now offer_id buyer_id : ℕ) (db : Db)
    → let db' = (accept now offer_id buyer_id db).1 in
      Unchanged db db'
      ⊎ ((offer : Offer) × (find_offer offer_id db ≡ some offer)
          × Unchanged (transaction (accept_commit now offer_id offer) db).1 db')
unfolding accept
accept_path now offer_id buyer_id db = ground arith

pub complete_path :
    (now offer_id buyer_id : ℕ) (db : Db)
    → let db' = (complete now offer_id buyer_id db).1 in
      Unchanged db db'
      ⊎ ((offer : Offer) × (find_offer offer_id db ≡ some offer)
          × Unchanged (transaction (complete_commit now offer_id offer.request_id) db).1 db')
unfolding complete
complete_path now offer_id buyer_id db = ground arith

pub run_end_path :
    (now offer_id user_id : ℕ) (offer : Offer) (request : Request) (db : Db)
    → Unchanged
        (transaction (end_commit now offer_id offer.request_id (ended_by user_id request)) db).1
        (run_end now offer_id user_id offer request db).1
unfolding run_end
run_end_path now offer_id user_id offer request db = ground arith

end_missing_path :
    (now offer_id user_id : ℕ) (db : Db)
    → ((offer : Offer)
        → find_offer offer_id db ≡ some offer
        → find_request offer.request_id db ≡ none)
    → Unchanged db (end_negotiation now offer_id user_id db).1
unfolding end_negotiation
end_missing_path now offer_id user_id db h = elim (Option-cases (find_offer offer_id db)) [
  | inl missing ↦ ground arith
  | inr (offer, found) ↦ let none_of = h offer found in ground arith
]

end_found_path :
    (now offer_id user_id : ℕ) (db : Db) (offer : Offer) (request : Request)
    → find_offer offer_id db ≡ some offer
    → find_request offer.request_id db ≡ some request
    → let db' = (end_negotiation now offer_id user_id db).1 in
      Unchanged db db' ⊎ (db' ≡ (run_end now offer_id user_id offer request db).1)
unfolding end_negotiation
end_found_path now offer_id user_id db offer request found of = ground arith

pub end_negotiation_path :
    (now offer_id user_id : ℕ) (db : Db)
    → let db' = (end_negotiation now offer_id user_id db).1 in
      Unchanged db db'
      ⊎ ((offer : Offer) × (request : Request) × (db'
            ≡ (run_end now offer_id user_id offer request db).1))
end_negotiation_path now offer_id user_id db = elim (Option-cases (find_offer offer_id db)) [
  | inl missing ↦ inl (end_missing_path now offer_id user_id db (λ o h. absurd (cc h)))
  | inr (offer, found) ↦ elim (Option-cases (find_request offer.request_id db)) [
    | inl no_request ↦ inl (
        end_missing_path now offer_id user_id db (λ o h. let e : o ≡ offer = cc in rw e no_request))
    | inr (request, of) ↦ elim (end_found_path now offer_id user_id db offer request found of) [
      | inl same ↦ inl same
      | inr ran ↦ inr (offer, request, ran)
    ]
  ]
]

pub accept-IsValid :
    (now offer_id buyer_id : ℕ) (db : Db)
    → DbIsValid db
    → DbIsValid (accept now offer_id buyer_id db).1
accept-IsValid now offer_id buyer_id db v = elim (accept_path now offer_id buyer_id db) [
  | inl same ↦ Unchanged-IsValid db (accept now offer_id buyer_id db).1 same v
  | inr (offer, found, rest) ↦
      Unchanged-IsValid (transaction (accept_commit now offer_id offer) db).1
        (accept now offer_id buyer_id db).1 rest
        (accept_commit-IsValid now offer_id offer db
          (λ o h. let e : o ≡ offer = cc in ap (λ (x : Offer). x.request_id) e) v)
]

pub complete-IsValid :
    (now offer_id buyer_id : ℕ) (db : Db)
    → DbIsValid db
    → DbIsValid (complete now offer_id buyer_id db).1
complete-IsValid now offer_id buyer_id db v = elim (complete_path now offer_id buyer_id db) [
  | inl same ↦ Unchanged-IsValid db (complete now offer_id buyer_id db).1 same v
  | inr (offer, found, rest) ↦
      Unchanged-IsValid (transaction (complete_commit now offer_id offer.request_id) db).1
        (complete now offer_id buyer_id db).1 rest
        (complete_commit-IsValid now offer_id offer.request_id db
          (λ o h. let e : o ≡ offer = cc in ap (λ (x : Offer). x.request_id) e) v)
]

run_end-IsValid :
    (now offer_id user_id : ℕ) (offer : Offer) (request : Request) (db : Db)
    → DbIsValid db
    → DbIsValid (run_end now offer_id user_id offer request db).1
run_end-IsValid now offer_id user_id offer request db v =
    Unchanged-IsValid
      (transaction (end_commit now offer_id offer.request_id (ended_by user_id request)) db).1
      (run_end now offer_id user_id offer request db).1
      (run_end_path now offer_id user_id offer request db)
      (end_commit-IsValid now offer_id offer.request_id (ended_by user_id request) db v)

pub end_negotiation-IsValid :
    (now offer_id user_id : ℕ) (db : Db)
    → DbIsValid db
    → DbIsValid (end_negotiation now offer_id user_id db).1
end_negotiation-IsValid now offer_id user_id db v =
    elim (end_negotiation_path now offer_id user_id db) [
      | inl same ↦ Unchanged-IsValid db (end_negotiation now offer_id user_id db).1 same v
      | inr (offer, request, ran) ↦ rw ran (run_end-IsValid now offer_id user_id offer request db v)
    ]
