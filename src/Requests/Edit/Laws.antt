-- ===== src/Requests/Edit/Laws.antt =====
-- What an edit has passed, and what it may change.
use buyseekk.Prelude.{ℕ, ◌≡◌, refl, ◌⊎◌, inl, inr, Bool, true, false, some, modify, some_of, arith}
use buyseekk.Shared.RequestStatus.{StoredRequestStatus}
use buyseekk.Db.Schema.{Country, RequestTerms, Request, User, Db}
use buyseekk.Db.Action.{ok, Action, pure, gets, write, choose, ◌>>=◌, ◌>>◌}
use buyseekk.Db.Tables.{find_request, set_requests, negotiates_on}
use buyseekk.Db.Quiet.{IsQuiet, quiet_bind, quiet_bind-eq-ok, bind-IsQuiet}
use buyseekk.Access.{
  Env, validate_image_urls, assert_clean_public_text, assert_no_duplicate_request,
  assert_valid_money_amount,
}
use buyseekk.Requests.Publish.{Catalogue, is_autos}
use buyseekk.Requests.Edit.{
  UpdateRequestDto, has_structural, has_pending_on, editable_request, assert_new_content,
  assert_not_similar, assert_new_budget, assert_new_place, assert_new_car, assert_edited_car,
  assert_new_home, assert_edited_home, edited_terms, edited_row, edit, update, clears_zone,
}

editable_request-IsQuiet :
    (user_id id : ℕ) (dto : UpdateRequestDto) → IsQuiet (editable_request user_id id dto)
unfolding editable_request
editable_request-IsQuiet user_id id dto db = ground arith

assert_new_content-IsQuiet :
    (env : Env) (user_id : ℕ) (dto : UpdateRequestDto) (req : Request)
    → IsQuiet (assert_new_content env user_id dto req)
unfolding assert_new_content validate_image_urls assert_clean_public_text
assert_new_content-IsQuiet env user_id dto req db = ground arith

assert_not_similar-IsQuiet :
    (env : Env) (now user_id id : ℕ) (dto : UpdateRequestDto) (req : Request)
    → IsQuiet (assert_not_similar env now user_id id dto req)
unfolding assert_not_similar assert_no_duplicate_request
assert_not_similar-IsQuiet env now user_id id dto req db = ground arith

assert_new_budget-IsQuiet :
    (dto : UpdateRequestDto) (req : Request) → IsQuiet (assert_new_budget dto req)
unfolding assert_new_budget assert_valid_money_amount
assert_new_budget-IsQuiet dto req db = ground arith

assert_new_place-IsQuiet :
    (cat : Catalogue) (country : Country) (dto : UpdateRequestDto) (req : Request)
    → IsQuiet (assert_new_place cat country dto req)
unfolding assert_new_place
assert_new_place-IsQuiet cat country dto req db = ground arith

assert_edited_car-IsQuiet :
    (cat : Catalogue) (country : Country) (pending : Bool) (dto : UpdateRequestDto) (req : Request)
    → IsQuiet (assert_edited_car cat country pending dto req)
unfolding assert_edited_car assert_new_car
assert_edited_car-IsQuiet cat country pending dto req db = ground arith

assert_edited_home-IsQuiet :
    (cat : Catalogue) (country : Country) (pending : Bool) (dto : UpdateRequestDto) (req : Request)
    → IsQuiet (assert_edited_home cat country pending dto req)
unfolding assert_edited_home assert_new_home
assert_edited_home-IsQuiet cat country pending dto req db = ground arith

assert_edited-IsQuiet :
    (cat : Catalogue) (country : Country) (pending car : Bool) (dto : UpdateRequestDto)
    (req : Request)
    → IsQuiet (
        choose car
          (assert_edited_car cat country pending dto req)
          (assert_edited_home cat country pending dto req))
assert_edited-IsQuiet cat country pending true dto req =
    assert_edited_car-IsQuiet cat country pending dto req
assert_edited-IsQuiet cat country pending false dto req =
    assert_edited_home-IsQuiet cat country pending dto req

-- A request that may be edited by this body.
abbrev pub IsEditable : ℕ → ℕ → UpdateRequestDto → Request → Db → Type 0
IsEditable user_id id dto req db =
    (find_request id db ≡ some req)
    × (req.user_id ≡ user_id)
    × (req.active ≡ true)
    × (req.status ≡ StoredRequestStatus.activa)
    × (some_of (negotiates_on id) db.offers ≡ false)
    × (some_of (has_pending_on id) db.offers ≡ true → has_structural dto ≡ false)

editable_request-eq-ok :
    (user_id id : ℕ) (dto : UpdateRequestDto) (db : Db) {user : User} {req : Request}
    → (editable_request user_id id dto db).0 ≡ ok (user, req)
    → IsEditable user_id id dto req db
unfolding editable_request
editable_request-eq-ok user_id id dto db h = ground arith

-- What `edit` does once the request is found.
rest_of_edit : Env → Catalogue → ℕ → ℕ → ℕ → UpdateRequestDto → User → Request → Action RequestTerms
rest_of_edit env cat now user_id id dto user req = do
  has_pending ← gets (λ db. some_of (has_pending_on id) db.offers)
  assert_new_content env user_id dto req
  assert_not_similar env now user_id id dto req
  assert_new_budget dto req
  assert_new_place cat user.country dto req
  choose (is_autos req.category) (assert_edited_car cat user.country has_pending dto req)
      (assert_edited_home cat user.country has_pending dto req)
  pure (edited_terms cat user.country dto req)

rest_of_edit-eq-ok :
    (env : Env) (cat : Catalogue) (now user_id id : ℕ) (dto : UpdateRequestDto) (user : User)
    (req : Request) (db : Db) {terms : RequestTerms}
    → (rest_of_edit env cat now user_id id dto user req db).0 ≡ ok terms
    → terms ≡ edited_terms cat user.country dto req
unfolding rest_of_edit
rest_of_edit-eq-ok env cat now user_id id dto user req db h =
    let pending = some_of (has_pending_on id) db.offers in
    let texts = assert_new_content-IsQuiet env user_id dto req db in
    let others = assert_not_similar-IsQuiet env now user_id id dto req db in
    let budget = assert_new_budget-IsQuiet dto req db in
    let place = assert_new_place-IsQuiet cat user.country dto req db in
    let car = assert_edited_car-IsQuiet cat user.country pending dto req db in
    let home = assert_edited_home-IsQuiet cat user.country pending dto req db in ground arith

rest_of_edit-IsQuiet :
    (env : Env) (cat : Catalogue) (now user_id id : ℕ) (dto : UpdateRequestDto) (user : User)
    (req : Request)
    → IsQuiet (rest_of_edit env cat now user_id id dto user req)
unfolding rest_of_edit
rest_of_edit-IsQuiet env cat now user_id id dto user req db =
    let pending = some_of (has_pending_on id) db.offers in
    let texts = assert_new_content-IsQuiet env user_id dto req db in
    let others = assert_not_similar-IsQuiet env now user_id id dto req db in
    let budget = assert_new_budget-IsQuiet dto req db in
    let place = assert_new_place-IsQuiet cat user.country dto req db in
    let car = assert_edited_car-IsQuiet cat user.country pending dto req db in
    let home = assert_edited_home-IsQuiet cat user.country pending dto req db in ground arith

module _ (env : Env) (cat : Catalogue) (now user_id id : ℕ) (dto : UpdateRequestDto) where
  edit-IsQuiet : IsQuiet (edit env cat now user_id id dto)
  unfolding edit rest_of_edit
  edit-IsQuiet =
      bind-IsQuiet (editable_request user_id id dto)
        (λ p. rest_of_edit env cat now user_id id dto p.0 p.1)
        (editable_request-IsQuiet user_id id dto)
        (λ p. rest_of_edit-IsQuiet env cat now user_id id dto p.0 p.1)

  edit-eq-ok :
      (db : Db) {terms : RequestTerms}
      → (edit env cat now user_id id dto db).0 ≡ ok terms
      → (user : User) × (req : Request) × IsEditable user_id id dto req db
        × (terms ≡ edited_terms cat user.country dto req)
  unfolding edit rest_of_edit
  edit-eq-ok db h =
      let (p, found, run) =
        quiet_bind-eq-ok (editable_request user_id id dto)
          (λ p. rest_of_edit env cat now user_id id dto p.0 p.1) db
          (editable_request-IsQuiet user_id id dto) h in
      (
        p.0,
        p.1,
        editable_request-eq-ok user_id id dto db found,
        rest_of_edit-eq-ok env cat now user_id id dto p.0 p.1 db (rw run at h),
      )

  -- An update either changes nothing or writes the row of one request.
  pub update_path :
      (db : Db)
      → let db' = (update env cat now user_id id dto db).1 in
        ((db'.requests ≡ db.requests) × (db'.offers ≡ db.offers))
        ⊎ ((terms : RequestTerms) × (db'.requests ≡ modify db.requests id (edited_row now terms))
            × (db'.offers ≡ db.offers))
  unfolding update
  update_path db =
      quiet_bind
        (λ db'.
          ((db'.requests ≡ db.requests) × (db'.offers ≡ db.offers))
          ⊎ ((terms : RequestTerms) × (db'.requests ≡ modify db.requests id (edited_row now terms))
              × (db'.offers ≡ db.offers)))
        (edit env cat now user_id id dto)
        (λ terms. write (set_requests (λ rs. modify rs id (edited_row now terms)))) db edit-IsQuiet
        (inl (refl, refl)) (λ terms h. inr (terms, refl, refl))

  update_writes :
      (db : Db)
      → (update env cat now user_id id dto db).0 ≡ ok tt
      → (terms : RequestTerms) × ((edit env cat now user_id id dto db).0 ≡ ok terms)
        × ((update env cat now user_id id dto db).1.requests
            ≡ modify db.requests id (edited_row now terms))
  unfolding update
  update_writes db h = let quiet = edit-IsQuiet db in ground arith

-- The terms that a seller's offer rests on are the same: the place, the currency, the operation, the
-- home and the car.
abbrev pub SameStructure : RequestTerms → RequestTerms → Type 0
SameStructure new old =
    (new.location ≡ old.location)
    × (new.zone ≡ old.zone)
    × (new.state ≡ old.state)
    × (new.currency ≡ old.currency)
    × (new.operation ≡ old.operation)
    × (new.bedrooms ≡ old.bedrooms)
    × (new.min_sqm ≡ old.min_sqm)
    × (new.max_sqm ≡ old.max_sqm)
    × (new.car_brand ≡ old.car_brand)
    × (new.car_model ≡ old.car_model)
    × (new.car_color ≡ old.car_color)
    × (new.car_year_min ≡ old.car_year_min)
    × (new.car_condition ≡ old.car_condition)
    × (new.max_mileage ≡ old.max_mileage)

edited_terms-SameStructure :
    (cat : Catalogue) (country : Country) (dto : UpdateRequestDto) (req : Request)
    → has_structural dto ≡ false
    → SameStructure (edited_terms cat country dto req) req.terms
unfolding has_structural edited_terms clears_zone
edited_terms-SameStructure cat country dto req h = ground arith

-- A request that is edited exists, is the caller's own, active and ACTIVA, and has no open negotiation;
-- its row, and no other, gets the new terms; and while an offer on it is pending, the place, the
-- currency, the operation, the home and the car that it asks for stay as they were.
pub update-eq-ok :
    (env : Env) (cat : Catalogue) (now user_id id : ℕ) (dto : UpdateRequestDto) (db : Db)
    → (update env cat now user_id id dto db).0 ≡ ok tt
    → let db' = (update env cat now user_id id dto db).1 in
      (user : User) × (req : Request) × (find_request id db ≡ some req)
      × (req.user_id ≡ user_id)
      × (req.active ≡ true)
      × (req.status ≡ StoredRequestStatus.activa)
      × (some_of (negotiates_on id) db.offers ≡ false)
      × (db'.requests
          ≡ modify db.requests id (edited_row now (edited_terms cat user.country dto req)))
      × (some_of (has_pending_on id) db.offers ≡ true
          → SameStructure (edited_terms cat user.country dto req) req.terms)
update-eq-ok env cat now user_id id dto db h =
    let (terms, checked, rows) = update_writes env cat now user_id id dto db h in
    let (user, req, (found, owner, active, open_now, free, frozen), made) =
      edit-eq-ok env cat now user_id id dto db checked in
    (
      user,
      req,
      found,
      owner,
      active,
      open_now,
      free,
      rw made at rows,
      λ pending. edited_terms-SameStructure cat user.country dto req (frozen pending),
    )
