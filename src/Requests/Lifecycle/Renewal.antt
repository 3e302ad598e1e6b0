-- ===== src/Requests/Lifecycle/Renewal.antt =====
-- A request that is paused while a negotiation on it ends.
use buyseekk.Prelude.{
  ℕ, ◌≡◌, refl, true, none, some, is_some, count_where, arith, get_elem?-modify_self,
}
use buyseekk.Shared.RequestStatus.{StoredRequestStatus}
use buyseekk.Db.Schema.{Request, Db}
use buyseekk.Db.Tables.{find_request, negotiates_on}
use buyseekk.Offers.Negotiation.{sync_request_negotiation_status, synced_requests}
use buyseekk.Requests.Lifecycle.{renew, renew_row}

-- The requests after the end of a paused request's last negotiation are as before.
paused_request_kept :
    (id : ℕ) (db : Db) {r : Request}
    → find_request id db ≡ some r
    → r.status ≡ StoredRequestStatus.negociando
    → is_some r.paused_at ≡ true
    → count_where (negotiates_on id) db.offers ≡ 0
    → (sync_request_negotiation_status id db).requests ≡ db.requests
unfolding sync_request_negotiation_status synced_requests
paused_request_kept id db found busy paused none_open = ground arith

renewed_request :
    (now user_id id : ℕ) (db : Db) (r : Request)
    → find_request id db ≡ some r
    → r.status ≡ StoredRequestStatus.negociando
    → r.active ≡ true
    → r.user_id ≡ user_id
    → find_request id (renew now user_id id db).1 ≡ some (renew_row now r)
unfolding renew
renewed_request now user_id id db r found busy active owner =
    ground (arith, get_elem?-modify_self db.requests id (renew_row now) found)

kept_offers :
    (now user_id id : ℕ) (db : Db)
    → (renew now user_id id (sync_request_negotiation_status id db)).1.offers ≡ db.offers
unfolding renew sync_request_negotiation_status
kept_offers now user_id id db = ground arith

-- When the last negotiation on a paused request ends, the synchronisation leaves it NEGOCIANDO, and
-- renewing it afterwards does so too: it is then not paused, NEGOCIANDO, and without a negotiation.
pub renew-paused_negotiation :
    (now user_id id : ℕ) (db : Db) {r : Request}
    → find_request id db ≡ some r
    → r.user_id ≡ user_id
    → r.active ≡ true
    → r.status ≡ StoredRequestStatus.negociando
    → is_some r.paused_at ≡ true
    → count_where (negotiates_on id) db.offers ≡ 0
    → let db' = (renew now user_id id (sync_request_negotiation_status id db)).1 in
      (r' : Request) × (find_request id db' ≡ some r')
      × (r'.status ≡ StoredRequestStatus.negociando)
      × (r'.paused_at ≡ none)
      × (count_where (negotiates_on id) db'.offers ≡ 0)
renew-paused_negotiation now user_id id db {r} found owner active busy paused none_open =
    let kept = paused_request_kept id db found busy paused none_open in
    (
      renew_row now r,
      renewed_request now user_id id (sync_request_negotiation_status id db) r (rw kept found) busy
          active owner,
      busy,
      refl,
      rw (kept_offers now user_id id db) none_open,
    )
