-- ===== src/Requests/Edit.antt =====
-- `RequestsService.update`: which requests may be edited, which fields, and the row that results. A
-- field of the body is absent or has a value; the four fields whose null the code asks for may also
-- be null. The removal of images from storage is left out.
pub mod Laws
use buyseekk.Prelude.{
  ℕ, Bool, true, false, Option, none, some, List, [], ◌∷◌, ◌++◌, ◌==◌, ◌&&◌, ◌||◌, not, is_some,
  is_none, or_else, some_of, modify, length, Text, trim, is_empty, if◌then◌else◌,
}
use buyseekk.Shared.RequestStatus.{StoredRequestStatus, is_cerrada, is_negociando}
use buyseekk.Shared.UserMode.{RequestCategory, is_buyer_capable_role}
use buyseekk.Shared.Money.{Currency}
use buyseekk.Db.Schema.{
  Country, OperationType, CarCondition, RequestTerms, Request, Offer, User, Db,
}
use buyseekk.Db.Errors.{Error}
use buyseekk.Db.Action.{
  ok, Action, pure, gets, or_raise, raise_if, write, when, choose, ◌>>=◌, ◌>>◌,
}
use buyseekk.Db.Tables.{find_user, find_request, set_requests, touch, is_pendiente, negotiates_on}
use buyseekk.Access.{
  Env, validate_image_urls, assert_clean_public_text, assert_no_duplicate_request,
  assert_valid_money_amount,
}
use buyseekk.Requests.Publish.{
  Catalogue, given, is_us, is_rental, is_autos, includes, area_of, zone_misplaced, outside, exceeds,
  is_valid_auto_mileage_preference, busco,
}

pub record UpdateRequestDto : Type 0 where
  pub title : Option Text
  pub requirements : Option Text
  pub budget : Option ℕ
  pub budget_period : Option Text
  pub negotiable : Option Bool
  pub currency : Option Currency
  pub location : Option Text
  pub operation : Option OperationType
  pub image_urls : Option (List Text)
  pub zone : Option Text
  pub bedrooms : Option ℕ
  pub min_sqm : Option (Option ℕ)
  pub max_sqm : Option (Option ℕ)
  pub car_brand : Option Text
  pub car_model : Option Text
  pub car_color : Option Text
  pub car_year_min : Option ℕ
  pub max_mileage : Option (Option ℕ)
  pub car_condition : Option (Option CarCondition)

-- A field of STRUCTURAL_FIELDS is given.
unfoldable pub has_structural : UpdateRequestDto → Bool
has_structural dto =
    is_some dto.location
    || is_some dto.zone
    || is_some dto.operation
    || is_some dto.currency
    || is_some dto.car_brand
    || is_some dto.car_model
    || is_some dto.car_color
    || is_some dto.car_year_min
    || is_some dto.car_condition
    || is_some dto.max_mileage
    || is_some dto.bedrooms
    || is_some dto.min_sqm
    || is_some dto.max_sqm

-- A field of LIMITED_EDIT_FIELDS is given; every field is in one of the two sets.
unfoldable pub has_limited : UpdateRequestDto → Bool
has_limited dto =
    is_some dto.title
    || is_some dto.requirements
    || is_some dto.budget
    || is_some dto.budget_period
    || is_some dto.negotiable
    || is_some dto.image_urls

-- `dto.field ?? req.field`, for a field that the row may lack.
abbrev pub instead {ℓ} : {A : Type ℓ} → Option A → Option A → Option A
instead none old = old
instead (some a) _ = some a

-- A test of a field, if it is given.
abbrev fails_if_given {ℓ} : {A : Type ℓ} → Option A → (A → Bool) → Bool
fails_if_given none test = false
fails_if_given (some a) test = test a

unfoldable pub has_pending_on : ℕ → Offer → Bool
has_pending_on id o = o.request_id == id && is_pendiente o.status

-- The request that may be edited by this body, and its owner.
unfoldable pub editable_request : ℕ → ℕ → UpdateRequestDto → Action (User × Request)
unfolding has_structural has_limited has_pending_on
editable_request user_id id dto = do
  user ← or_raise (← gets (find_user user_id)) Error.forbidden
  raise_if (not (is_buyer_capable_role user.profile.role)) Error.buyers_only
  raise_if (not (has_structural dto || has_limited dto)) Error.no_fields
  req ← or_raise (← gets (find_request id)) Error.request_not_found
  raise_if (not req.active) Error.request_not_found
  raise_if (not (req.user_id == user_id)) Error.forbidden
  raise_if (is_cerrada req.status) Error.closed_edit
  raise_if (is_negociando req.status) Error.negotiating_edit
  offers ← gets (λ db. db.offers)
  raise_if (some_of (negotiates_on id) offers) Error.negotiating_edit
  raise_if (some_of (has_pending_on id) offers && has_structural dto) Error.pending_edit
  pure (user, req)

-- The new images and texts.
unfoldable pub assert_new_content : Env → ℕ → UpdateRequestDto → Request → Action (Unit {0})
assert_new_content env user_id dto req = do
  validate_image_urls env (or_else dto.image_urls []) user_id req.terms.image_urls
  assert_clean_public_text env (or_else dto.requirements [])
  assert_clean_public_text env (or_else dto.title [])

-- The comparison with the buyer's other requests, if a text changes.
unfoldable pub assert_not_similar : Env → ℕ → ℕ → ℕ → UpdateRequestDto → Request → Action (Unit {0})
assert_not_similar env now user_id id dto req =
    when (is_some dto.requirements || is_some dto.title) (
      assert_no_duplicate_request env now user_id (or_else dto.requirements req.terms.requirements)
        (some (or_else dto.title req.terms.title)) (some id))

-- The amount, if it changes, in the currency that the request will have.
unfoldable pub assert_new_budget : UpdateRequestDto → Request → Action (Unit {0})
assert_new_budget dto req = when (is_some dto.budget) (
    assert_valid_money_amount (or_else dto.budget 0) (or_else dto.currency req.terms.currency) (
      is_rental (some (or_else dto.operation req.terms.operation))
      || is_some (instead dto.budget_period req.terms.budget_period)))

-- The new place.
unfoldable pub assert_new_place :
    Catalogue → Country → UpdateRequestDto → Request → Action (Unit {0})
unfolding zone_misplaced
assert_new_place cat country dto req = do
  raise_if
      (fails_if_given dto.location (λ l.
        if is_us country
        then not (cat.is_valid_us_area_location l)
        else not (includes (cat.cities_for_country country) (some l))))
      Error.invalid_city
  raise_if
      (fails_if_given dto.zone (λ z.
        let value = trim z in
        not (is_empty value)
        && zone_misplaced cat (area_of cat country (or_else dto.location req.terms.location))
            (some value)))
      Error.invalid_zone

-- `clearIncompatibleZone`
unfoldable pub clears_zone : Catalogue → Country → UpdateRequestDto → Request → Bool
unfolding zone_misplaced
clears_zone cat country dto req =
    is_none dto.zone
    && is_some dto.location
    && given req.terms.zone
    && zone_misplaced cat (area_of cat country (or_else dto.location req.terms.location))
        req.terms.zone

-- Where the zone is not checked against the area: outside the United States it is one of the city's.
abbrev zone_elsewhere : Catalogue → Country → UpdateRequestDto → Request → Bool
zone_elsewhere cat country dto req =
    not (is_us country)
    && fails_if_given dto.zone (λ z. not (
        includes (cat.zones_for_country_and_city country (or_else dto.location req.terms.location))
          (some z)))

-- The checks on a car that are left out while offers are pending.
unfoldable pub assert_new_car : Catalogue → Country → UpdateRequestDto → Request → Action (Unit {0})
unfolding is_valid_auto_mileage_preference
assert_new_car cat country dto req = do
  let brand = instead dto.car_brand req.terms.car_brand
  raise_if (fails_if_given dto.car_brand (λ b. not (cat.is_valid_brand b))) Error.invalid_car
  raise_if
      (fails_if_given dto.car_model
        (λ m. given brand && not (cat.is_valid_model (or_else brand []) m)))
      Error.invalid_car
  raise_if (fails_if_given dto.car_color (λ c. not (cat.is_valid_color c))) Error.invalid_car
  raise_if (fails_if_given dto.car_year_min (λ y. not (cat.is_valid_car_year y))) Error.invalid_car
  raise_if
      ((is_some dto.car_condition || is_some dto.max_mileage)
        && not (
            is_valid_auto_mileage_preference cat (or_else dto.car_condition req.terms.car_condition)
              (or_else dto.max_mileage req.terms.max_mileage)))
      Error.invalid_mileage
  raise_if (fails_if_given (or_else dto.max_mileage none) (λ m. not (cat.is_valid_mileage_value m)))
      Error.invalid_mileage
  raise_if (zone_elsewhere cat country dto req) Error.invalid_zone

-- The checks on a request in the category AUTOS.
unfoldable pub assert_edited_car :
    Catalogue → Country → Bool → UpdateRequestDto → Request → Action (Unit {0})
unfolding assert_new_car
assert_edited_car cat country has_pending dto req = do
  choose has_pending (pure tt) (assert_new_car cat country dto req)
  raise_if
      (not (given (instead dto.car_brand req.terms.car_brand))
        || not (given (instead dto.car_model req.terms.car_model))
        || not (given (instead dto.car_color req.terms.car_color))
        || is_none (instead dto.car_year_min req.terms.car_year_min))
      Error.incomplete_car
  raise_if (not (is_us country) && not (given (instead dto.zone req.terms.zone)))
      Error.incomplete_car

-- The checks on a home that are left out while offers are pending.
unfoldable pub assert_new_home :
    Catalogue → Country → UpdateRequestDto → Request → Action (Unit {0})
assert_new_home cat country dto req = do
  raise_if (zone_elsewhere cat country dto req) Error.invalid_zone
  raise_if (outside 1 10 dto.bedrooms) Error.invalid_bedrooms
  raise_if (outside 10 5000 (or_else dto.min_sqm none)) Error.invalid_sqm
  raise_if (outside 10 5000 (or_else dto.max_sqm none)) Error.invalid_sqm
  raise_if (exceeds (or_else dto.min_sqm req.terms.min_sqm) (or_else dto.max_sqm req.terms.max_sqm))
      Error.invalid_sqm
  raise_if
      (given dto.car_brand
        || given dto.car_model
        || given dto.car_color
        || is_some dto.car_year_min
        || is_some (or_else dto.car_condition none)
        || is_some (or_else dto.max_mileage none))
      Error.car_fields_misplaced

-- The checks on a request in the category INMOBILIARIA.
unfoldable pub assert_edited_home :
    Catalogue → Country → Bool → UpdateRequestDto → Request → Action (Unit {0})
unfolding assert_new_home
assert_edited_home cat country has_pending dto req = do
  choose has_pending (pure tt) (assert_new_home cat country dto req)
  raise_if (is_none (instead dto.bedrooms req.terms.bedrooms)) Error.incomplete_home
  raise_if (not (is_us country) && not (given (instead dto.zone req.terms.zone)))
      Error.incomplete_home

-- A blank title becomes the car's name, or stays as it was.
unfoldable pub edited_title : UpdateRequestDto → Request → Text
edited_title dto req = elim dto.title [
  | none ↦ req.terms.title
  | some t ↦
      let trimmed = trim t in
      if not (is_empty trimmed)
      then trimmed
      else if is_autos req.category && given req.terms.car_brand && given req.terms.car_model
      then busco ++ or_else req.terms.car_brand [] ++ 32 ∷ or_else req.terms.car_model []
      else req.terms.title
]

abbrev edited_zone : Catalogue → Country → UpdateRequestDto → Request → Option Text
edited_zone cat country dto req = elim dto.zone [
  | none ↦ if clears_zone cat country dto req then none else req.terms.zone
  | some z ↦ let value = trim z in if is_empty value then none else some value
]

abbrev edited_state : Catalogue → Country → UpdateRequestDto → Request → Option Text
edited_state cat country dto req =
    if is_us country && (is_some dto.location || is_some dto.zone)
    then elim (area_of cat country (or_else dto.location req.terms.location)) [
      | none ↦ none
      | some a ↦ some a.0
    ]
    else req.terms.state

-- The data of the update. A mileage takes the place of the wish for a new car, and the other way
-- round.
unfoldable pub edited_terms : Catalogue → Country → UpdateRequestDto → Request → RequestTerms
unfolding edited_title clears_zone
edited_terms cat country dto req = record {
  title = edited_title dto req;
  requirements = or_else dto.requirements req.terms.requirements;
  budget = or_else dto.budget req.terms.budget;
  budget_period = instead dto.budget_period req.terms.budget_period;
  negotiable = or_else dto.negotiable req.terms.negotiable;
  currency = or_else dto.currency req.terms.currency;
  operation =
      if is_autos req.category
      then req.terms.operation
      else or_else dto.operation req.terms.operation;
  location = or_else dto.location req.terms.location;
  state = edited_state cat country dto req;
  zone = edited_zone cat country dto req;
  bedrooms = instead dto.bedrooms req.terms.bedrooms;
  min_sqm = or_else dto.min_sqm req.terms.min_sqm;
  max_sqm = or_else dto.max_sqm req.terms.max_sqm;
  image_urls = or_else dto.image_urls req.terms.image_urls;
  car_brand = instead dto.car_brand req.terms.car_brand;
  car_model = instead dto.car_model req.terms.car_model;
  car_color = instead dto.car_color req.terms.car_color;
  car_year_min = instead dto.car_year_min req.terms.car_year_min;
  car_condition =
      if is_some (or_else dto.max_mileage none)
      then none
      else or_else dto.car_condition req.terms.car_condition;
  max_mileage =
      or_else dto.max_mileage
        (if is_some (or_else dto.car_condition none) then none else req.terms.max_mileage);
}

abbrev pub edited_row : ℕ → RequestTerms → Request → Request
edited_row now terms r = record (touch now r) { terms = terms }

-- Everything before the write: the terms to be written.
unfoldable pub edit : Env → Catalogue → ℕ → ℕ → ℕ → UpdateRequestDto → Action RequestTerms
edit env cat now user_id id dto = do
  (user, req) ← editable_request user_id id dto
  has_pending ← gets (λ db. some_of (has_pending_on id) db.offers)
  assert_new_content env user_id dto req
  assert_not_similar env now user_id id dto req
  assert_new_budget dto req
  assert_new_place cat user.country dto req
  choose (is_autos req.category) (assert_edited_car cat user.country has_pending dto req)
      (assert_edited_home cat user.country has_pending dto req)
  pure (edited_terms cat user.country dto req)

unfoldable pub update : Env → Catalogue → ℕ → ℕ → ℕ → UpdateRequestDto → Action (Unit {0})
update env cat now user_id id dto = do
  terms ← edit env cat now user_id id dto
  write (set_requests (λ rs. modify rs id (edited_row now terms)))
