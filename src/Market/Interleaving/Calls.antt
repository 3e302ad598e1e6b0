-- ===== src/Market/Interleaving/Calls.antt =====
-- A call that runs alone is one of the interleavings.
use buyseekk.Prelude.{ℕ, ◌≡◌, sym, ◌∙◌, inl, inr, some, modify, get_elem?, trim, arith}
use buyseekk.Db.Schema.{OfferStatus, Request, Offer, Db}
use buyseekk.Db.Tables.{touch, start_negotiating}
use buyseekk.Access.{Env}
use buyseekk.Offers.Negotiation.{accept, reject, complete, end_negotiation, ended_by}
use buyseekk.Offers.Create.{CreateOfferDto, create}
use buyseekk.Offers.Listing.{remove_from_listing}
use buyseekk.Requests.Lifecycle.{close, renew_row, pause_row, deactivate}
use buyseekk.Requests.Publish.{Catalogue}
use buyseekk.Requests.Edit.{UpdateRequestDto, update, edited_row}
use buyseekk.Requests.Edit.Laws.{update_path}
use buyseekk.Chats.{SendMessageDto, send}
use buyseekk.Market.Negotiation.{Unchanged, rejected_row, reject_outcome}
use buyseekk.Market.Methods.{accept_path, complete_path, run_end_path, end_negotiation_path}
use buyseekk.Market.Moves.{
  Updates, Marks, renew_path, pause_path, remove_path, close_path, dismiss_path,
  remove_from_listing_path,
}
use buyseekk.Market.Calls.{create_path, send_path, join_path}
use buyseekk.Market.Runs.{Call, run}
use buyseekk.Market.Interleaving.{OfferMark, mark_row, reject_update, Run}

module _ {db db' : Db} where
  a_no_write : Unchanged db db' → Run db db'
  a_no_write same = Run.elsewhere Run.idle same

  an_update : (f : Request → Request) (id : ℕ) → Updates f id db db' → Run db db'
  an_update f id (inl same) = a_no_write same
  an_update f id (inr changed) =
      Run.elsewhere (Run.rewrites Run.idle (modify db.requests id f)) changed

  a_mark : (m : OfferMark) (id : ℕ) → Marks (mark_row m) id db db' → Run db db'
  a_mark m id (inl same) = a_no_write same
  a_mark m id (inr changed) = Run.elsewhere (Run.marks Run.idle m id) changed

accept-Run : (now offer_id buyer_id : ℕ) (db : Db) → Run db (accept now offer_id buyer_id db).1
accept-Run now offer_id buyer_id db = elim (accept_path now offer_id buyer_id db) [
  | inl same ↦ a_no_write same
  | inr (offer, found, rest) ↦
      Run.elsewhere (Run.accepts Run.idle Run.idle now offer_id offer found) rest
]

complete-Run : (now offer_id buyer_id : ℕ) (db : Db) → Run db (complete now offer_id buyer_id db).1
complete-Run now offer_id buyer_id db = elim (complete_path now offer_id buyer_id db) [
  | inl same ↦ a_no_write same
  | inr (offer, found, rest) ↦
      Run.elsewhere (Run.completes Run.idle Run.idle now offer_id offer found) rest
]

end-Run : (now offer_id user_id : ℕ) (db : Db) → Run db (end_negotiation now offer_id user_id db).1
end-Run now offer_id user_id db = elim (end_negotiation_path now offer_id user_id db) [
  | inl same ↦ a_no_write same
  | inr (offer, request, ran) ↦ rw ran (
      Run.elsewhere (Run.ends Run.idle now offer_id offer.request_id (ended_by user_id request))
        (run_end_path now offer_id user_id offer request db))
]

rejected_rest :
    (offer_id : ℕ) (db : Db) {o : Offer}
    → get_elem? db.offers offer_id ≡ some o
    → o.status ≡ OfferStatus.pendiente
    → ((reject_update offer_id db).requests ≡ db.requests)
      × ((reject_update offer_id db).offers ≡ modify db.offers offer_id rejected_row)
unfolding reject_update
rejected_rest offer_id db found pending = ground arith

reject-Run : (now offer_id buyer_id : ℕ) (db : Db) → Run db (reject now offer_id buyer_id db).1
reject-Run now offer_id buyer_id db = elim (reject_outcome now offer_id buyer_id db) [
  | inl same ↦ a_no_write same
  | inr (o, found, pending, r, os) ↦
      let (r', os') = rejected_rest offer_id db found pending in
      Run.elsewhere
        (Run.rewrites (Run.rejects Run.idle offer_id) (modify db.requests o.request_id (touch now)))
        (r, os ∙ sym os')
]

close-Run : (now user_id id : ℕ) (db : Db) → Run db (close now user_id id db).1
close-Run now user_id id db = elim (close_path now user_id id db) [
  | inl same ↦ a_no_write same
  | inr rest ↦ Run.elsewhere (Run.closes Run.idle now id) rest
]

create-Run :
    (env : Env) (now seller_id : ℕ) (dto : CreateOfferDto) (db : Db)
    → Run db (create env now seller_id dto db).1
create-Run env now seller_id dto db = elim (create_path env now seller_id dto db) [
  | inl same ↦ a_no_write same
  | inr (request, rest) ↦
      Run.elsewhere (Run.creates Run.idle now request seller_id dto (trim dto.terms.message)) rest
]

remove_from_listing-Run :
    (now offer_id user_id : ℕ) (db : Db) → Run db (remove_from_listing now offer_id user_id db).1
remove_from_listing-Run now offer_id user_id db =
    elim (remove_from_listing_path now offer_id user_id db) [
      | inl d ↦ a_mark OfferMark.dismissed offer_id d
      | inr (inl b) ↦ a_mark (OfferMark.buyer_deleted now) offer_id b
      | inr (inr s) ↦ a_mark (OfferMark.seller_deleted now) offer_id s
    ]

send-Run :
    (now chat_id user_id : ℕ) (dto : SendMessageDto) (db : Db)
    → Run db (send now chat_id user_id dto db).1
send-Run now chat_id user_id dto db =
    let (id, path) = send_path now chat_id user_id dto db in
    an_update (λ r. start_negotiating (touch now r)) id path

update-Run :
    (env : Env) (cat : Catalogue) (now user_id id : ℕ) (dto : UpdateRequestDto) (db : Db)
    → Run db (update env cat now user_id id dto db).1
update-Run env cat now user_id id dto db = elim (update_path env cat now user_id id dto db) [
  | inl same ↦ a_no_write same
  | inr (terms, r, o) ↦ an_update (edited_row now terms) id (inr (r, o))
]

-- A call of Market.Runs, whatever it answers, changes the offers by the steps of an interleaving.
pub run-Run :
    (env : Env) (cat : Catalogue) (now : ℕ) (c : Call) (db : Db) → Run db (run env cat now c db)
unfolding run
run-Run env cat now (Call.create_offer s dto) db = create-Run env now s dto db
run-Run env cat now (Call.accept_offer o b) db = accept-Run now o b db
run-Run env cat now (Call.reject_offer o b) db = reject-Run now o b db
run-Run env cat now (Call.complete_deal o b) db = complete-Run now o b db
run-Run env cat now (Call.end_deal o u) db = end-Run now o u db
run-Run env cat now (Call.dismiss_offer o s) db = a_mark OfferMark.dismissed o (dismiss_path o s db)
run-Run env cat now (Call.remove_offer o u) db = remove_from_listing-Run now o u db
run-Run env cat now (Call.close_request u id) db = close-Run now u id db
run-Run env cat now (Call.renew_request u id) db =
    an_update (renew_row now) id (renew_path now u id db)
run-Run env cat now (Call.pause_request u id) db =
    an_update (pause_row now) id (pause_path now u id db)
run-Run env cat now (Call.remove_request u id) db = an_update deactivate id (remove_path u id db)
run-Run env cat now (Call.update_request u id dto) db = update-Run env cat now u id dto db
run-Run env cat now (Call.send_message c u dto) db = send-Run now c u dto db
run-Run env cat now (Call.join_chat c u) db = a_no_write (join_path now c u db)
