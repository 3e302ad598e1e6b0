-- ===== src/Requests/Publish.antt =====
-- `RequestsService.create`: the checks in the order of the code, the limit on active requests, and
-- the insert. The images' clean-up after a failed insert and the alerts for matching sellers, which
-- are sent afterwards and cannot fail the call, are left out.
pub mod Laws
use buyseekk.Prelude.{
  ℕ, Bool, true, false, Option, none, some, List, [], ◌∷◌, ◌++◌, ◌==◌, ltb, leb, ◌&&◌, ◌||◌, not,
  is_some, is_none, or_else, some_of, count_where, length, Text, text_eq, trim, is_empty,
  if◌then◌else◌,
}
use buyseekk.Shared.Limits.{max_active_requests}
use buyseekk.Shared.RequestStatus.{StoredRequestStatus}
use buyseekk.Shared.UserMode.{RequestCategory, is_buyer_capable_role}
use buyseekk.Shared.Money.{Currency}
use buyseekk.Db.Schema.{Country, OperationType, CarCondition, RequestTerms, Request, User, Db}
use buyseekk.Db.Errors.{Error}
use buyseekk.Db.Action.{ok, Action, pure, gets, or_raise, raise_if, choose, ◌>>=◌, ◌>>◌}
use buyseekk.Db.Tables.{find_user, set_requests}
use buyseekk.Requests.Visibility.{same_country, counts_toward_buyer_limit_where}
use buyseekk.Access.{
  Env, assert_account_active, assert_email_verified, validate_image_urls, assert_clean_public_text,
  assert_no_duplicate_request, assert_valid_money_amount,
}

-- The catalogues of packages/shared/src/car-catalog.ts, locations.ts and us-locations.ts, by the
-- questions that the service asks: tables of names, and the tests of a year and of a mileage.
pub record Catalogue : Type 0 where
  pub is_valid_us_area_location : Text → Bool
  pub parse_us_area_location : Text → Option (Text × Text)
  pub is_valid_us_request_area : Text → Text → Text → Bool
  pub cities_for_country : Country → List Text
  pub zones_for_country_and_city : Country → Text → List Text
  pub is_valid_brand : Text → Bool
  pub is_valid_model : Text → Text → Bool
  pub is_valid_color : Text → Bool
  pub is_valid_car_year : ℕ → Bool
  pub is_valid_mileage_value : ℕ → Bool

pub record CreateRequestDto : Type 0 where
  pub category : RequestCategory
  pub operation : Option OperationType
  pub title : Option Text
  pub requirements : Text
  pub budget : ℕ
  pub budget_period : Option Text
  pub negotiable : Option Bool
  pub currency : Currency
  pub location : Text
  pub country : Country
  pub image_urls : List Text
  pub zone : Option Text
  pub bedrooms : Option ℕ
  pub min_sqm : Option ℕ
  pub max_sqm : Option ℕ
  pub car_brand : Option Text
  pub car_model : Option Text
  pub car_color : Option Text
  pub car_year_min : Option ℕ
  pub car_condition : Option CarCondition
  pub max_mileage : Option ℕ

-- `!!value`
abbrev pub given : Option Text → Bool
given none = false
given (some s) = not (is_empty s)

abbrev pub is_us : Country → Bool
is_us c = same_country c Country.us

abbrev pub is_rental : Option OperationType → Bool
is_rental (some OperationType.alquiler) = true
is_rental _ = false

abbrev pub is_autos : RequestCategory → Bool
is_autos RequestCategory.autos = true
is_autos RequestCategory.inmobiliaria = false

-- `list.includes(value)`
abbrev pub includes : List Text → Option Text → Bool
includes names none = false
includes names (some s) = some_of (λ t. text_eq t s) names

-- packages/shared/src/car-catalog.ts: a new car has no mileage.
unfoldable pub is_valid_auto_mileage_preference : Catalogue → Option CarCondition → Option ℕ → Bool
is_valid_auto_mileage_preference cat (some CarCondition.new_car) mileage = is_none mileage
is_valid_auto_mileage_preference cat none none = true
is_valid_auto_mileage_preference cat none (some m) = cat.is_valid_mileage_value m

-- The state and the area of a location in the United States.
abbrev pub area_of : Catalogue → Country → Text → Option (Text × Text)
area_of cat country location = if is_us country then cat.parse_us_area_location location else none

-- `dto.zone` as it is used: trimmed in the United States, where a blank one is absent.
unfoldable pub zone_of : Country → Option Text → Option Text
zone_of country wanted_zone =
    if is_us country
    then (let z = trim (or_else wanted_zone []) in if is_empty z then none else some z)
    else wanted_zone

unfoldable pub zone_misplaced : Catalogue → Option (Text × Text) → Option Text → Bool
zone_misplaced cat (some (state, area)) (some z) = not (cat.is_valid_us_request_area state area z)
zone_misplaced cat _ _ = false

unfoldable pub assert_place : Catalogue → Country → Text → Option Text → Action (Unit {0})
unfolding zone_of zone_misplaced
assert_place cat country location wanted_zone = do
  raise_if
      (if is_us country
        then not (cat.is_valid_us_area_location location)
        else not (includes (cat.cities_for_country country) (some location)))
      Error.invalid_city
  raise_if (zone_misplaced cat (area_of cat country location) (zone_of country wanted_zone))
      Error.invalid_zone

-- Outside the United States a zone of the city is required.
unfoldable pub assert_zone : Catalogue → Country → Text → Option Text → Action (Unit {0})
assert_zone cat country location wanted_zone = do
  raise_if (not (is_us country) && not (given wanted_zone)) Error.zone_required
  raise_if
      (not (is_us country)
        && not (includes (cat.zones_for_country_and_city country location) wanted_zone))
      Error.invalid_zone

unfoldable pub assert_car_terms : Catalogue → Country → CreateRequestDto → Action (Unit {0})
unfolding assert_zone is_valid_auto_mileage_preference zone_of
assert_car_terms cat country dto = do
  raise_if
      (not (given dto.car_brand)
        || not (given dto.car_model)
        || not (given dto.car_color)
        || is_none dto.car_year_min)
      Error.car_fields_missing
  assert_zone cat country dto.location (zone_of country dto.zone)
  let brand = or_else dto.car_brand []
  raise_if (not (cat.is_valid_brand brand)) Error.invalid_car
  raise_if (not (cat.is_valid_model brand (or_else dto.car_model []))) Error.invalid_car
  raise_if (not (cat.is_valid_color (or_else dto.car_color []))) Error.invalid_car
  raise_if (not (cat.is_valid_car_year (or_else dto.car_year_min 0))) Error.invalid_car
  raise_if (not (is_valid_auto_mileage_preference cat dto.car_condition dto.max_mileage))
      Error.invalid_mileage
  raise_if (elim dto.max_mileage [ none ↦ false | some m ↦ not (cat.is_valid_mileage_value m) ])
      Error.invalid_mileage

abbrev pub outside : ℕ → ℕ → Option ℕ → Bool
outside low high none = false
outside low high (some n) = ltb n low || ltb high n

abbrev pub exceeds : Option ℕ → Option ℕ → Bool
exceeds (some a) (some b) = ltb b a
exceeds _ _ = false

unfoldable pub assert_home_terms : Catalogue → Country → CreateRequestDto → Action (Unit {0})
unfolding assert_zone zone_of
assert_home_terms cat country dto = do
  raise_if (is_empty (trim (or_else dto.title []))) Error.title_required
  assert_zone cat country dto.location (zone_of country dto.zone)
  raise_if (is_none dto.bedrooms || outside 1 10 dto.bedrooms) Error.bedrooms_required
  raise_if (outside 10 5000 dto.min_sqm) Error.invalid_sqm
  raise_if (outside 10 5000 dto.max_sqm) Error.invalid_sqm
  raise_if (exceeds dto.min_sqm dto.max_sqm) Error.invalid_sqm
  raise_if
      (given dto.car_brand
        || given dto.car_model
        || given dto.car_color
        || is_some dto.car_year_min
        || is_some dto.car_condition
        || is_some dto.max_mileage)
      Error.car_fields_misplaced

-- The checks on the account and on the texts.
unfoldable pub assert_may_publish : Env → ℕ → ℕ → CreateRequestDto → Action Country
assert_may_publish env now user_id dto = do
  user ← or_raise (← gets (find_user user_id)) Error.forbidden
  raise_if (not (is_buyer_capable_role user.profile.role)) Error.buyers_only
  assert_account_active user
  assert_email_verified user
  validate_image_urls env dto.image_urls user_id []
  assert_clean_public_text env dto.requirements
  assert_clean_public_text env (or_else dto.title [])
  assert_no_duplicate_request env now user_id dto.requirements dto.title none
  assert_valid_money_amount dto.budget dto.currency
      (is_rental dto.operation || is_some dto.budget_period)
  raise_if (not (same_country dto.country user.country)) Error.other_country
  pure user.country

-- "Busco "
abbrev pub busco : Text
busco = 66 ∷ 117 ∷ 115 ∷ 99 ∷ 111 ∷ 32 ∷ []

-- The title that is stored: the one given, or one made of the brand and the model.
unfoldable pub title_of : CreateRequestDto → Text
title_of dto =
    let trimmed = trim (or_else dto.title []) in
    if not (is_empty trimmed)
    then trimmed
    else if is_autos dto.category && given dto.car_brand && given dto.car_model
    then busco ++ or_else dto.car_brand [] ++ 32 ∷ or_else dto.car_model []
    else busco

-- A field that is stored for the requests of one category only.
abbrev pub only {ℓ} : {A : Type ℓ} → Bool → Option A → Option A
only true a = a
only false a = none

unfoldable pub terms_of : Catalogue → Country → CreateRequestDto → RequestTerms
unfolding title_of zone_of
terms_of cat country dto =
    let car = is_autos dto.category in
    record {
      title = title_of dto;
      requirements = dto.requirements;
      budget = dto.budget;
      budget_period = dto.budget_period;
      negotiable = or_else dto.negotiable true;
      currency = dto.currency;
      operation = if car then OperationType.compra else or_else dto.operation OperationType.compra;
      location = dto.location;
      state = elim (area_of cat country dto.location) [ none ↦ none | some a ↦ some a.0 ];
      zone = zone_of country dto.zone;
      bedrooms = only (not car) dto.bedrooms;
      min_sqm = only (not car) dto.min_sqm;
      max_sqm = only (not car) dto.max_sqm;
      image_urls = dto.image_urls;
      car_brand = only car dto.car_brand;
      car_model = only car dto.car_model;
      car_color = only car dto.car_color;
      car_year_min = only car dto.car_year_min;
      car_condition = only car dto.car_condition;
      max_mileage = only car dto.max_mileage;
    }

-- The row, with the defaults of the table.
unfoldable pub new_request : Catalogue → ℕ → ℕ → Country → CreateRequestDto → Request
unfolding terms_of
new_request cat now user_id country dto = record {
  user_id = user_id;
  category = dto.category;
  country = dto.country;
  terms = terms_of cat country dto;
  active = true;
  hidden_by_moderation = false;
  status = StoredRequestStatus.activa;
  last_activity_at = now;
  last_buyer_activity_at = now;
  paused_at = none;
  closed_at = none;
  created_at = now;
}

-- The requests of a user that count toward the limit.
unfoldable pub occupies_place : ℕ → ℕ → Request → Bool
occupies_place now user_id r = r.user_id == user_id && counts_toward_buyer_limit_where now r

-- The end of `create`: the count, and the insert if there is a place.
unfoldable pub insert_within_limit : ℕ → ℕ → Request → Action ℕ
insert_within_limit now user_id r = do
  active_count ← gets (λ db. count_where (occupies_place now user_id) db.requests)
  raise_if (leb max_active_requests active_count) Error.too_many_requests
  id ← gets (λ db. length db.requests)
  (λ db. (ok id, set_requests (λ rs. rs ++ r ∷ []) db))

unfoldable pub create_request : Env → Catalogue → ℕ → ℕ → CreateRequestDto → Action ℕ
create_request env cat now user_id dto = do
  country ← assert_may_publish env now user_id dto
  assert_place cat country dto.location dto.zone
  choose (is_autos dto.category) (assert_car_terms cat country dto)
      (assert_home_terms cat country dto)
  insert_within_limit now user_id (new_request cat now user_id country dto)
