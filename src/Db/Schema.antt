-- ===== src/Db/Schema.antt =====
-- The tables of apps/api/prisma/schema.prisma. A row's id, an opaque `cuid` there, is its position in
-- its table here, so ids are unique and never reused; the modelled code deletes no row of these tables. A DateTime is its milliseconds.
use buyseekk.Prelude.{ℕ, Bool, Option, List, Text}
use buyseekk.Shared.RequestStatus.{StoredRequestStatus}
use buyseekk.Shared.UserMode.{UserMode, RequestCategory, SellerProfileFields}
use buyseekk.Shared.Money.{Currency}
use buyseekk.Shared.Subscription.{SubscriptionPlan, SubscriptionEntitlementInput}

pub data Country : Type 0 where
  ar us : Country

pub data Locale : Type 0 where
  es en : Locale

pub data OperationType : Type 0 where
  compra alquiler : OperationType

pub data CarCondition : Type 0 where
  new_car : CarCondition

pub data OfferStatus : Type 0 where
  pendiente aceptada rechazada : OfferStatus

pub data NegotiationEndedBy : Type 0 where
  buyer seller : NegotiationEndedBy

pub data MessageRole : Type 0 where
  system buyer seller : MessageRole

pub record User : Type 0 where
  pub profile : SellerProfileFields
  pub active_mode : UserMode
  pub blocked : Bool
  pub suspended : Bool
  pub email_verified : Bool
  pub country : Country
  pub locale : Locale
  pub default_accept_message : Option Text
  pub subscription_plan : SubscriptionPlan

-- What the buyer asks for.
pub record RequestTerms : Type 0 where
  pub title : Text
  pub requirements : Text
  pub budget : ℕ
  pub budget_period : Option Text
  pub negotiable : Bool
  pub currency : Currency
  pub operation : OperationType
  pub location : Text
  pub state : Option Text
  pub zone : Option Text
  pub bedrooms : Option ℕ
  pub min_sqm : Option ℕ
  pub max_sqm : Option ℕ
  pub image_urls : List Text
  pub car_brand : Option Text
  pub car_model : Option Text
  pub car_color : Option Text
  pub car_year_min : Option ℕ
  pub car_condition : Option CarCondition
  pub max_mileage : Option ℕ

pub record Request : Type 0 where
  pub user_id : ℕ
  pub category : RequestCategory
  pub country : Country
  pub terms : RequestTerms
  pub active : Bool
  pub hidden_by_moderation : Bool
  pub status : StoredRequestStatus
  pub last_activity_at : ℕ
  pub last_buyer_activity_at : ℕ
  pub paused_at : Option ℕ
  pub closed_at : Option ℕ
  pub created_at : ℕ

-- What the seller proposes.
pub record OfferTerms : Type 0 where
  pub price : ℕ
  pub currency : Currency
  pub message : Text
  pub image_urls : List Text

-- The fields `requestTitle`, `requestBudget`, … that an offer copies from its request.
pub record RequestSnapshot : Type 0 where
  pub title : Text
  pub budget : ℕ
  pub budget_period : Option Text
  pub requirements : Text
  pub location : Text

pub record Offer : Type 0 where
  pub request_id : ℕ
  pub seller_id : ℕ
  pub terms : OfferTerms
  pub snapshot : RequestSnapshot
  pub status : OfferStatus
  pub dismissed_by_seller : Bool
  pub hidden_by_moderation : Bool
  pub created_at : ℕ
  pub accepted_at : Option ℕ
  pub deal_completed_at : Option ℕ
  pub negotiation_ended_at : Option ℕ
  pub negotiation_ended_by : Option NegotiationEndedBy
  pub buyer_deleted_at : Option ℕ
  pub seller_deleted_at : Option ℕ

pub record Chat : Type 0 where
  pub offer_id : ℕ
  pub last_message_at : ℕ
  pub created_at : ℕ

-- The text of a message: what a user wrote, or what the service formats from the values given.
pub data MessageText : Type 0 where
  written : Text → MessageText
  offer_accepted : (title : Text) → (price : ℕ) → MessageText
  default_greeting : Locale → MessageText
  negotiation_ended : NegotiationEndedBy → MessageText

pub record Message : Type 0 where
  pub chat_id : ℕ
  pub from_role : MessageRole
  pub text : MessageText
  pub client_message_id : Option Text
  pub created_at : ℕ

pub record ChatReadState : Type 0 where
  pub chat_id : ℕ
  pub user_id : ℕ
  pub last_read_at : ℕ

pub record Subscription : Type 0 where
  pub user_id : ℕ
  pub entitlement : SubscriptionEntitlementInput

pub record SavedRequest : Type 0 where
  pub seller_id : ℕ
  pub request_id : ℕ

-- The calls of NotificationsService, in the order in which they are made.
pub data Notification : Type 0 where
  new_offer : (recipient offer_id : ℕ) → Notification
  offer_accepted : (recipient offer_id : ℕ) → Notification
  offer_rejected : (recipient offer_id : ℕ) → Notification
  deal_completed : (recipient chat_id offer_id : ℕ) → Notification
  negotiation_ended : (recipient chat_id offer_id : ℕ) → NegotiationEndedBy → Notification
  request_closed : (recipient request_id : ℕ) → Notification
  new_message : (recipient chat_id : ℕ) → Notification

pub record Db : Type 0 where
  pub users : List User
  pub requests : List Request
  pub offers : List Offer
  pub chats : List Chat
  pub messages : List Message
  pub read_states : List ChatReadState
  pub subscriptions : List Subscription
  pub saved_requests : List SavedRequest
  pub outbox : List Notification
