-- ===== src/Requests/Publish/Laws.antt =====
-- A request that is published had a place, and its buyer is within the limit afterwards.
use buyseekk.Prelude.{
  ℕ, ◌+◌, ◌≤◌, ◌<◌, ◌≡◌, ap, ◌∙◌, Bool, true, false, Option, some, List, [], ◌∷◌, ◌++◌, length,
  count_where, count_where-append, arith, Text,
}
use buyseekk.Shared.Limits.{max_active_requests}
use buyseekk.Shared.UserMode.{is_buyer_capable_role}
use buyseekk.Db.Schema.{Country, Request, User, Db}
use buyseekk.Db.Action.{Result, ok, choose, ◌>>◌}
use buyseekk.Db.Tables.{find_user}
use buyseekk.Db.Quiet.{IsQuiet, quiet_bind-eq-ok}
use buyseekk.Access.{
  Env, assert_account_active, assert_email_verified, validate_image_urls, assert_clean_public_text,
  assert_no_duplicate_request, assert_valid_money_amount,
}
use buyseekk.Requests.Publish.{
  Catalogue, CreateRequestDto, is_autos, assert_place, assert_zone, assert_car_terms,
  assert_home_terms, assert_may_publish, new_request, occupies_place, insert_within_limit,
  create_request,
}

assert_may_publish-IsQuiet :
    (env : Env) (now user_id : ℕ) (dto : CreateRequestDto)
    → IsQuiet (assert_may_publish env now user_id dto)
unfolding assert_may_publish assert_account_active assert_email_verified validate_image_urls
    assert_clean_public_text assert_no_duplicate_request assert_valid_money_amount
assert_may_publish-IsQuiet env now user_id dto db = ground arith

assert_place-IsQuiet :
    (cat : Catalogue) (country : Country) (location : Text) (wanted_zone : Option Text)
    → IsQuiet (assert_place cat country location wanted_zone)
unfolding assert_place
assert_place-IsQuiet cat country location wanted_zone db = ground arith

assert_car_terms-IsQuiet :
    (cat : Catalogue) (country : Country) (dto : CreateRequestDto)
    → IsQuiet (assert_car_terms cat country dto)
unfolding assert_car_terms assert_zone
assert_car_terms-IsQuiet cat country dto db = ground arith

assert_home_terms-IsQuiet :
    (cat : Catalogue) (country : Country) (dto : CreateRequestDto)
    → IsQuiet (assert_home_terms cat country dto)
unfolding assert_home_terms assert_zone
assert_home_terms-IsQuiet cat country dto db = ground arith

assert_terms-IsQuiet :
    (cat : Catalogue) (country : Country) (dto : CreateRequestDto) (car : Bool)
    → IsQuiet (choose car (assert_car_terms cat country dto) (assert_home_terms cat country dto))
assert_terms-IsQuiet cat country dto true = assert_car_terms-IsQuiet cat country dto
assert_terms-IsQuiet cat country dto false = assert_home_terms-IsQuiet cat country dto

insert_within_limit-eq-ok :
    (now user_id : ℕ) (r : Request) (db : Db) {id : ℕ}
    → (insert_within_limit now user_id r db).0 ≡ ok id
    → (id ≡ length db.requests)
      × (count_where (occupies_place now user_id) db.requests < max_active_requests)
      × ((insert_within_limit now user_id r db).1.requests ≡ db.requests ++ r ∷ [])
unfolding insert_within_limit
insert_within_limit-eq-ok now user_id r db h = ground arith

-- With a new row, a count grows by one at most.
count_where-append_one :
    (p : Request → Bool) (requests : List Request) (r : Request)
    → count_where p (requests ++ r ∷ []) ≤ count_where p requests + 1
count_where-append_one p requests r =
    let e = count_where-append p requests (r ∷ []) in ground (arith, e)

may_publish-eq-ok :
    (env : Env) (now user_id : ℕ) (dto : CreateRequestDto) (db : Db) {country : Country}
    → (assert_may_publish env now user_id dto db).0 ≡ ok country
    → (user : User) × (find_user user_id db ≡ some user)
      × (is_buyer_capable_role user.profile.role ≡ true)
      × (user.blocked ≡ false)
      × (user.suspended ≡ false)
      × (user.email_verified ≡ true)
      × (country ≡ user.country)
unfolding assert_may_publish assert_account_active assert_email_verified validate_image_urls
    assert_clean_public_text assert_no_duplicate_request assert_valid_money_amount
may_publish-eq-ok env now user_id dto db h = ground arith

-- A request that is published belongs to an active and verified account that may buy, is the new
-- last row of the table, in the account's country, and is the only change to it. Its buyer had fewer
-- than five requests that count toward the limit, and has at most five with it.
pub create_request-eq-ok :
    (env : Env) (cat : Catalogue) (now user_id : ℕ) (dto : CreateRequestDto) (db : Db) {id : ℕ}
    → (create_request env cat now user_id dto db).0 ≡ ok id
    → let db' = (create_request env cat now user_id dto db).1 in
      (user : User) × (find_user user_id db ≡ some user)
      × (is_buyer_capable_role user.profile.role ≡ true)
      × (user.blocked ≡ false)
      × (user.suspended ≡ false)
      × (user.email_verified ≡ true)
      × (id ≡ length db.requests)
      × (db'.requests ≡ db.requests ++ new_request cat now user_id user.country dto ∷ [])
      × (count_where (occupies_place now user_id) db.requests < max_active_requests)
      × (count_where (occupies_place now user_id) db'.requests ≤ max_active_requests)
unfolding create_request
create_request-eq-ok env cat now user_id dto db h =
    let terms = λ (country : Country).
      choose (is_autos dto.category) (assert_car_terms cat country dto)
        (assert_home_terms cat country dto) in
    let finish = λ (country : Country).
      insert_within_limit now user_id (new_request cat now user_id country dto) in
    let (country, may, run1) =
      quiet_bind-eq-ok (assert_may_publish env now user_id dto)
        (λ c. assert_place cat c dto.location dto.zone >> (terms c >> finish c)) db
        (assert_may_publish-IsQuiet env now user_id dto) h in
    let (u, placed, run2) =
      quiet_bind-eq-ok (assert_place cat country dto.location dto.zone)
        (λ _. terms country >> finish country) db
        (assert_place-IsQuiet cat country dto.location dto.zone) (rw run1 at h) in
    let (w, fit, run3) =
      quiet_bind-eq-ok (terms country) (λ _. finish country) db
        (assert_terms-IsQuiet cat country dto (is_autos dto.category))
        (rw run2 at (rw run1 at h)) in
    let whole = run1 ∙ run2 ∙ run3 in
    let row = new_request cat now user_id country dto in
    let (at, few, table) = insert_within_limit-eq-ok now user_id row db (rw whole at h) in
    let table' = ap (λ (x : Result ℕ × Db). x.1.requests) whole ∙ table in
    let (user, found, buyer, unblocked, unsuspended, verified, own) =
      may_publish-eq-ok env now user_id dto db may in
    let grown = count_where-append_one (occupies_place now user_id) db.requests row in
    (
      user,
      found,
      buyer,
      unblocked,
      unsuspended,
      verified,
      at,
      rw (← own) table',
      few,
      rw table' (omega (arith, grown, few)),
    )
