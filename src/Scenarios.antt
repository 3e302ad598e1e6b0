-- ===== src/Scenarios.antt =====
-- A small database: a buyer, a seller, a request and the seller's offer on it, and what the services
-- make of them. The times are milliseconds after the epoch.
mod Market
mod Rules
mod Payments
mod Sessions
mod Community
use buyseekk.Prelude.{
  ℕ, ◌*◌, Bool, true, false, Option, none, some, List, [], ◌∷◌, Text, ◌≡◌, refl, ap,
}
use buyseekk.Shared.RequestStatus.{StoredRequestStatus}
use buyseekk.Shared.UserMode.{UserRole, UserMode, SellerType, RequestCategory, SellerProfileFields}
use buyseekk.Shared.Money.{Currency}
use buyseekk.Shared.Subscription.{SubscriptionPlan}
use buyseekk.Db.Schema.{
  Country, Locale, CarCondition, OperationType, OfferStatus, User, RequestTerms, Request,
  OfferTerms, RequestSnapshot, Offer, Db,
}
use buyseekk.Access.{Env}
use buyseekk.Offers.Create.{CreateOfferDto}
use buyseekk.Requests.Publish.{Catalogue, CreateRequestDto}
use buyseekk.Requests.Edit.{UpdateRequestDto}
use buyseekk.Chats.{SendMessageDto}
use buyseekk.Market.Invariant.{IsValid, no_offers-IsValid, append_offer-IsValid}
use buyseekk.Market.Negotiation.{DbIsValid}

-- "abc"
abbrev word : Text
word = 97 ∷ 98 ∷ 99 ∷ []

abbrev seller_fields : SellerProfileFields
seller_fields = record {
  role = UserRole.both;
  seller_type = some SellerType.individual;
  seller_category = some RequestCategory.autos;
  business_name = none;
  state = some word;
  city = some word;
}

abbrev account : SellerProfileFields → User
account profile = record {
  profile = profile;
  active_mode = UserMode.buyer;
  blocked = false;
  suspended = false;
  email_verified = true;
  country = Country.ar;
  locale = Locale.es;
  default_accept_message = none;
  subscription_plan = SubscriptionPlan.free;
}

abbrev bike_request : Request
bike_request = record {
  user_id = 0;
  category = RequestCategory.autos;
  country = Country.ar;
  terms = record {
    title = word;
    requirements = word;
    budget = 500;
    budget_period = none;
    negotiable = true;
    currency = Currency.usd;
    operation = OperationType.compra;
    location = word;
    state = none;
    zone = some word;
    bedrooms = none;
    min_sqm = none;
    max_sqm = none;
    image_urls = [];
    car_brand = some word;
    car_model = some word;
    car_color = some word;
    car_year_min = some 2000;
    car_condition = none;
    max_mileage = none;
  };
  active = true;
  hidden_by_moderation = false;
  status = StoredRequestStatus.activa;
  last_activity_at = 5;
  last_buyer_activity_at = 5;
  paused_at = none;
  closed_at = none;
  created_at = 5;
}

-- The buyer is user 0, the seller user 1.
abbrev start_db : Db
start_db = record {
  users = account seller_fields ∷ account seller_fields ∷ [];
  requests = bike_request ∷ [];
  offers = [];
  chats = [];
  messages = [];
  read_states = [];
  subscriptions = [];
  saved_requests = [];
  outbox = [];
}

start_db-DbIsValid : DbIsValid start_db
start_db-DbIsValid = no_offers-IsValid start_db.requests

abbrev bike_terms : OfferTerms
bike_terms = record { price = 450; currency = Currency.usd; message = word; image_urls = word ∷ [] }

abbrev bike_offer : Offer
bike_offer = record {
  request_id = 0;
  seller_id = 1;
  terms = bike_terms;
  snapshot = record {
    title = word;
    budget = 500;
    budget_period = none;
    requirements = word;
    location = word;
  };
  status = OfferStatus.pendiente;
  dismissed_by_seller = false;
  hidden_by_moderation = false;
  created_at = 10;
  accepted_at = none;
  deal_completed_at = none;
  negotiation_ended_at = none;
  negotiation_ended_by = none;
  buyer_deleted_at = none;
  seller_deleted_at = none;
}

abbrev offered_db : Db
offered_db = record start_db { offers = bike_offer ∷ [] }

offered_db-DbIsValid : DbIsValid offered_db
offered_db-DbIsValid =
    append_offer-IsValid start_db.requests [] bike_offer refl refl refl start_db-DbIsValid

-- No text is refused, and every text is its own fingerprint.
abbrev plain_env : Env
plain_env = record {
  has_spam_issue = λ text. false;
  content_fingerprint = λ text. text;
  url_well_formed = λ url. true;
  url_attachable = λ url user. true;
  plus_features_unlocked = false;
}

abbrev bike_dto : CreateOfferDto
bike_dto = record { request_id = 0; terms = bike_terms }

-- A message with a client id.
abbrev hello : SendMessageDto
hello = record { text = word; client_message_id = some word }

-- Every name is known and every value fits; there are no areas in the United States.
abbrev any_catalogue : Catalogue
any_catalogue = record {
  is_valid_us_area_location = λ l. true;
  parse_us_area_location = λ l. none;
  is_valid_us_request_area = λ state area z. true;
  cities_for_country = λ c. word ∷ [];
  zones_for_country_and_city = λ c city. word ∷ [];
  is_valid_brand = λ b. true;
  is_valid_model = λ b m. true;
  is_valid_color = λ c. true;
  is_valid_car_year = λ y. true;
  is_valid_mileage_value = λ m. true;
}

abbrev word_request : CreateRequestDto
word_request = record {
  category = RequestCategory.autos;
  operation = none;
  title = some word;
  requirements = word;
  budget = 700;
  budget_period = none;
  negotiable = none;
  currency = Currency.usd;
  location = word;
  country = Country.ar;
  image_urls = [];
  zone = some word;
  bedrooms = none;
  min_sqm = none;
  max_sqm = none;
  car_brand = some word;
  car_model = some word;
  car_color = some word;
  car_year_min = some 2010;
  car_condition = some CarCondition.new_car;
  max_mileage = none;
}

-- A new budget only.
abbrev word_edit : UpdateRequestDto
word_edit = record {
  title = none;
  requirements = none;
  budget = some 800;
  budget_period = none;
  negotiable = none;
  currency = none;
  location = none;
  operation = none;
  image_urls = none;
  zone = none;
  bedrooms = none;
  min_sqm = none;
  max_sqm = none;
  car_brand = none;
  car_model = none;
  car_color = none;
  car_year_min = none;
  max_mileage = none;
  car_condition = none;
}
