-- ===== src/Offers/Create/Laws.antt =====
-- What a created offer has passed, and what the insert adds.
use buyseekk.Prelude.{
  ℕ, ◌-◌, ◌≤◌, ◌<◌, ◌≡◌, ◌≢◌, refl, ◌∙◌, ap, ◌⊎◌, inl, inr, true, false, some, List, [], ◌∷◌, ◌++◌,
  length, is_empty, trim, some_of, count_where, Bool-cases, arith,
}
use buyseekk.Shared.Limits.{offer_message_max_length, max_offers_per_hour, hour_ms}
use buyseekk.Shared.RequestStatus.{is_offerable}
use buyseekk.Shared.UserMode.{can_send_offers}
use buyseekk.Db.Schema.{Request, Offer, User, OfferTerms, Notification, Db}
use buyseekk.Db.Action.{Result, ok, err, Action, pure, write, ◌>>=◌, ◌>>◌}
use buyseekk.Db.Errors.{Error}
use buyseekk.Db.Tables.{find_request, find_user, set_offers, post}
use buyseekk.Db.Quiet.{IsQuiet, quiet_bind-eq-ok, bind_of_ok, bind_of_err}
use buyseekk.Requests.Visibility.{to_lifecycle_input, same_country}
use buyseekk.Access.{
  Env, offers_since, assert_account_active, assert_email_verified, assert_image_urls,
  assert_clean_public_text, assert_valid_money_amount, assert_offer_spam_limits,
  assert_daily_offer_limit,
}
use buyseekk.Offers.Create.{
  CreateOfferDto, offerable_request, assert_may_offer, assert_proposal, new_offer, insert_offer,
  create, is_offer_of,
}

pub offerable_request-IsQuiet : (now request_id : ℕ) → IsQuiet (offerable_request now request_id)
unfolding offerable_request
offerable_request-IsQuiet now request_id db = ground arith

pub assert_may_offer-IsQuiet :
    (request : Request) (request_id seller_id : ℕ)
    → IsQuiet (assert_may_offer request request_id seller_id)
unfolding assert_may_offer assert_account_active assert_email_verified
assert_may_offer-IsQuiet request request_id seller_id db = ground arith

pub assert_proposal-IsQuiet :
    (env : Env) (now : ℕ) (request : Request) (seller_id : ℕ) (terms : OfferTerms)
    (message : List ℕ)
    → IsQuiet (assert_proposal env now request seller_id terms message)
unfolding assert_proposal assert_image_urls assert_clean_public_text assert_valid_money_amount
    assert_offer_spam_limits assert_daily_offer_limit
assert_proposal-IsQuiet env now request seller_id terms message db = ground arith

-- The request exists, is active and shown, and may receive an offer now.
abbrev pub IsOpenRequest : ℕ → ℕ → Request → Db → Type 0
IsOpenRequest now request_id request db =
    (find_request request_id db ≡ some request)
    × (request.active ≡ true)
    × (request.hidden_by_moderation ≡ false)
    × (is_offerable (to_lifecycle_input request) now ≡ true)

offerable_request-eq-ok :
    (now request_id : ℕ) (db : Db) {request : Request}
    → (offerable_request now request_id db).0 ≡ ok request
    → IsOpenRequest now request_id request db
unfolding offerable_request
offerable_request-eq-ok now request_id db h = ground arith

-- The seller exists, is neither blocked nor suspended, has a verified e-mail address and a complete
-- profile, is of the request's country and not its owner, and has no offer on it yet.
abbrev pub MayOffer : Request → ℕ → ℕ → User → Db → Type 0
MayOffer request request_id seller_id seller db =
    (find_user seller_id db ≡ some seller)
    × (seller.blocked ≡ false)
    × (seller.suspended ≡ false)
    × (seller.email_verified ≡ true)
    × (can_send_offers seller.profile ≡ true)
    × (same_country seller.country request.country ≡ true)
    × (request.user_id ≢ seller_id)
    × (some_of (is_offer_of request_id seller_id) db.offers ≡ false)

assert_may_offer-eq-ok :
    (request : Request) (request_id seller_id : ℕ) (db : Db) {u : Unit {0}}
    → (assert_may_offer request request_id seller_id db).0 ≡ ok u
    → (seller : User) × MayOffer request request_id seller_id seller db
unfolding assert_may_offer assert_account_active assert_email_verified
assert_may_offer-eq-ok request request_id seller_id db h = ground arith

assert_proposal-eq-ok :
    (env : Env) (now : ℕ) (request : Request) (seller_id : ℕ) (terms : OfferTerms)
    (message : List ℕ) (db : Db)
    → (assert_proposal env now request seller_id terms message db).0 ≡ ok tt
    → (is_empty message ≡ false)
      × (length message ≤ offer_message_max_length)
      × (count_where (offers_since seller_id (now - hour_ms)) db.offers < max_offers_per_hour)
unfolding assert_proposal assert_image_urls assert_clean_public_text assert_valid_money_amount
    assert_offer_spam_limits assert_daily_offer_limit
assert_proposal-eq-ok env now request seller_id terms message db h = ground arith

-- The offer that `create` inserts.
abbrev pub created : ℕ → Request → ℕ → CreateOfferDto → Offer
created now request seller_id dto = new_offer now request seller_id dto (trim dto.terms.message)

abbrev notify_owner : Request → ℕ → Action ℕ
notify_owner request offer_id =
    write (post (Notification.new_offer request.user_id offer_id)) >> pure offer_id

-- The end of `create`: the insert and the notification.
unfoldable pub finish : Request → Offer → Action ℕ
finish request o = do
  offer_id ← insert_offer o
  write (post (Notification.new_offer request.user_id offer_id))
  pure offer_id

pub insert_offer-cases :
    (o : Offer) (db : Db)
    → (insert_offer o db ≡ (err Error.duplicate_offer, db))
      ⊎ (insert_offer o db ≡ (ok (length db.offers), set_offers (λ os. os ++ o ∷ []) db))
unfolding insert_offer
insert_offer-cases o db =
    elim (Bool-cases (some_of (is_offer_of o.request_id o.seller_id) db.offers)) [
      | inl taken ↦ inl (rw taken)
      | inr fresh ↦ inr (rw fresh)
    ]

module _ (request : Request) (o : Offer) (db : Db) where
  pub finish_taken :
      insert_offer o db ≡ (err Error.duplicate_offer, db)
      → finish request o db ≡ (err Error.duplicate_offer, db)
  unfolding finish
  finish_taken taken = bind_of_err (insert_offer o) (notify_owner request) db taken

  pub finish_fresh :
      insert_offer o db ≡ (ok (length db.offers), set_offers (λ os. os ++ o ∷ []) db)
      → finish request o db ≡ (
        ok (length db.offers),
        post
            (Notification.new_offer request.user_id (length db.offers))
            (set_offers (λ os. os ++ o ∷ []) db),
      )
  unfolding finish
  finish_fresh fresh = bind_of_ok (insert_offer o) (notify_owner request) db fresh

finish-eq-ok :
    (request : Request) (o : Offer) (db : Db) {id : ℕ}
    → (finish request o db).0 ≡ ok id
    → (id ≡ length db.offers) × ((finish request o db).1.offers ≡ db.offers ++ o ∷ [])
finish-eq-ok request o db h = elim (insert_offer-cases o db) [
  | inl taken ↦ absurd (cc (rw (finish_taken request o db taken) at h))
  | inr fresh ↦ let e = finish_fresh request o db fresh in rw e (inserted (rw e at h))
]
  where
    inserted : {n m : ℕ} {xs : List Offer} → ok n ≡ ok m → (m ≡ n) × (xs ≡ xs)
    inserted e = (cc, refl)

-- An offer that is created is a pending row at the end of the table, by an active and verified seller
-- with a complete profile, who had none on the request, on another's request of the same country
-- that was open to offers at the time; its text is not empty and fits the limit, and the seller had
-- sent fewer than eight in the hour before.
pub create-eq-ok :
    (env : Env) (now seller_id : ℕ) (dto : CreateOfferDto) (db : Db) {id : ℕ}
    → (create env now seller_id dto db).0 ≡ ok id
    → (request : Request) × (seller : User) × IsOpenRequest now dto.request_id request db
      × MayOffer request dto.request_id seller_id seller db
      × (id ≡ length db.offers)
      × ((create env now seller_id dto db).1.offers
          ≡ db.offers ++ created now request seller_id dto ∷ [])
      × (is_empty (trim dto.terms.message) ≡ false)
      × (length (trim dto.terms.message) ≤ offer_message_max_length)
      × (count_where (offers_since seller_id (now - hour_ms)) db.offers < max_offers_per_hour)
unfolding create finish
create-eq-ok env now seller_id dto db h =
    let message = trim dto.terms.message in
    let (request, found, run1) =
      quiet_bind-eq-ok (offerable_request now dto.request_id)
        (λ r.
          assert_may_offer r dto.request_id seller_id
          >> (assert_proposal env now r seller_id dto.terms message
              >> finish r (created now r seller_id dto)))
        db (offerable_request-IsQuiet now dto.request_id) h in
    let (u, may, run2) =
      quiet_bind-eq-ok (assert_may_offer request dto.request_id seller_id)
        (λ _.
          assert_proposal env now request seller_id dto.terms message
          >> finish request (created now request seller_id dto))
        db (assert_may_offer-IsQuiet request dto.request_id seller_id) (rw run1 at h) in
    let (w, fits, run3) =
      quiet_bind-eq-ok (assert_proposal env now request seller_id dto.terms message)
        (λ _. finish request (created now request seller_id dto)) db
        (assert_proposal-IsQuiet env now request seller_id dto.terms message)
        (rw run2 at (rw run1 at h)) in
    let whole = run1 ∙ run2 ∙ run3 in
    let (at, table) = finish-eq-ok request (created now request seller_id dto) db (rw whole at h) in
    let (seller, allowed) = assert_may_offer-eq-ok request dto.request_id seller_id db may in
    let (text, size, rate) =
      assert_proposal-eq-ok env now request seller_id dto.terms message db fits in
    (
      request,
      seller,
      offerable_request-eq-ok now dto.request_id db found,
      allowed,
      at,
      ap (λ (x : Result ℕ × Db). x.1.offers) whole ∙ table,
      text,
      size,
      rate,
    )
