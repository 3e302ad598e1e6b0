-- ===== src/Billing/Store.antt =====
-- The billing tables of apps/api/prisma/schema.prisma: User.subscriptionPlan by user id, and the rows
-- of Subscription, BillingCustomer, BillingEvent and BillingCheckoutSession. Only Stripe's rows of the last three are
-- ever written, so their `provider` column is left out. A DateTime is its milliseconds.
use buyseekk.Prelude.{ℕ, Bool, true, false, Option, List, ◌&&◌, Text, text_eq}
use buyseekk.Shared.Subscription.{SubscriptionPlan, SubscriptionStatus}
use buyseekk.Shared.Keyed.{find_first}
use buyseekk.Shared.Effect.{Effect}

pub data SubscriptionProvider : Type 0 where
  stripe apple google : SubscriptionProvider

pub data BillingCheckoutStatus : Type 0 where
  open_session complete expired canceled : BillingCheckoutStatus

-- What the upsert of a synchronisation writes, whether the row is new or not.
pub record SubscriptionFields : Type 0 where
  pub user_id : ℕ
  pub provider_customer_id : Option Text
  pub provider_price_id : Option Text
  pub status : SubscriptionStatus
  pub current_period_start : Option ℕ
  pub current_period_end : Option ℕ
  pub cancel_at_period_end : Bool
  pub canceled_at : Option ℕ
  pub last_provider_event_at : Option ℕ
  pub last_provider_event_id : Option Text

pub record SubscriptionRow : Type 0 where
  pub provider : SubscriptionProvider
  pub provider_subscription_id : Text
  pub fields : SubscriptionFields
  pub created_at : ℕ
  pub updated_at : ℕ

pub record BillingCustomer : Type 0 where
  pub user_id : ℕ
  pub provider_customer_id : Text

pub record BillingEvent : Type 0 where
  pub provider_event_id : Text
  pub processing_started_at : Option ℕ
  pub processed_at : Option ℕ
  pub attempt_count : ℕ

pub record BillingCheckoutSession : Type 0 where
  pub user_id : ℕ
  pub provider_session_id : Option Text
  pub checkout_url : Option Text
  pub status : BillingCheckoutStatus
  pub expires_at : ℕ
  pub created_at : ℕ

pub record Store : Type 0 where
  pub plans : List SubscriptionPlan
  pub subscriptions : List SubscriptionRow
  pub customers : List BillingCustomer
  pub events : List BillingEvent
  pub checkouts : List BillingCheckoutSession

-- What the services throw, by the exception's `code`, and failures of the provider.
pub data BillingError : Type 0 where
  webhook_in_progress billing_unavailable already_plus no_manageable_subscription : BillingError
  no_plus_entitlement cancel_already_scheduled resume_not_scheduled : BillingError
  billing_provider_failed checkout_provider_failed user_not_found : BillingError
  missing_customer record_not_found unique_violation misconfigured : BillingError
  -- an error of the provider's client: will the same call fail again?
  provider_error : (definitive : Bool) → BillingError

abbrev pub Action : Type 0 → Type 0
Action A = Effect Store BillingError A

abbrev pub is_stripe : SubscriptionProvider → Bool
is_stripe SubscriptionProvider.stripe = true
is_stripe _ = false

-- The unique columns: `provider_providerSubscriptionId`, `provider_providerCustomerId`, and
-- `provider_providerEventId`.
abbrev pub is_subscription : Text → SubscriptionRow → Bool
is_subscription id r = is_stripe r.provider && text_eq r.provider_subscription_id id

abbrev pub is_customer : Text → BillingCustomer → Bool
is_customer id c = text_eq c.provider_customer_id id

abbrev pub is_event : Text → BillingEvent → Bool
is_event id e = text_eq e.provider_event_id id

abbrev pub find_subscription : Text → Store → Option SubscriptionRow
find_subscription id store = find_first (is_subscription id) store.subscriptions

abbrev pub find_customer : Text → Store → Option BillingCustomer
find_customer id store = find_first (is_customer id) store.customers

abbrev pub find_event : Text → Store → Option BillingEvent
find_event id store = find_first (is_event id) store.events
