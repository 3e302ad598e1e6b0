-- ===== src/Billing/Mapper.antt =====
-- apps/api/src/billing/stripe/stripe-subscription.mapper.ts, and the objects of the Stripe SDK as far as
-- it reads them. A status is one of the texts that the map lists, or another text.
use buyseekk.Prelude.{
  ℕ, ◌*◌, Bool, Option, none, some, List, [], ◌∷◌, Text, is_empty, trim, if◌then◌else◌,
}
use buyseekk.Shared.Subscription.{SubscriptionStatus}
use buyseekk.Billing.Store.{BillingError, Action}
use buyseekk.Shared.Effect.{or_raise, pure, ◌>>=◌}

pub data StripeStatus : Type 0 where
  active trialing past_due unpaid incomplete incomplete_expired canceled paused : StripeStatus
  other : Text → StripeStatus

-- `string | { id?: string } | null`
pub data Expandable : Type 0 where
  missing : Expandable
  id_of : Text → Expandable
  expanded : Option Text → Expandable

pub record StripeItem : Type 0 where
  pub price : Expandable
  pub period_start : Option ℕ
  pub period_end : Option ℕ

pub record StripeSubscription : Type 0 where
  pub id : Text
  pub customer : Expandable
  pub status : StripeStatus
  pub items : List StripeItem
  pub current_period_start : Option ℕ
  pub current_period_end : Option ℕ
  pub cancel_at_period_end : Bool
  pub canceled_at : Option ℕ
  pub metadata_user_id : Option Text
  pub metadata_plan : Option Text

pub record NormalizedStripeSubscription : Type 0 where
  pub id : Text
  pub customer_id : Text
  pub status : StripeStatus
  pub price_id : Option Text
  pub current_period_start : Option ℕ
  pub current_period_end : Option ℕ
  pub cancel_at_period_end : Bool
  pub canceled_at : Option ℕ
  pub metadata_user_id : Option Text
  pub metadata_plan : Option Text

-- `text || null`
abbrev pub filled : Text → Option Text
filled t = if is_empty t then none else some t

-- `typeof ref === 'string' ? ref : ref?.id`, where the empty string counts as missing.
abbrev pub expandable_id : Expandable → Option Text
expandable_id Expandable.missing = none
expandable_id (Expandable.id_of t) = filled t
expandable_id (Expandable.expanded none) = none
expandable_id (Expandable.expanded (some t)) = filled t

-- `price?.id ?? (typeof price === 'string' ? price : null)`
abbrev price_id : Expandable → Option Text
price_id Expandable.missing = none
price_id (Expandable.id_of t) = some t
price_id (Expandable.expanded t) = t

abbrev first_item : List StripeItem → Option StripeItem
first_item [] = none
first_item (item ∷ _) = some item

unfoldable pub unix_to_date : Option ℕ → Option ℕ
unix_to_date none = none
unix_to_date (some unix) = some (unix * 1000)

-- `a ?? b`
abbrev or_item : Option ℕ → Option ℕ → Option ℕ
or_item none b = b
or_item (some a) _ = some a

-- `item?.field`
abbrev of_item : (StripeItem → Option ℕ) → Option StripeItem → Option ℕ
of_item f none = none
of_item f (some item) = f item

abbrev item_price : Option StripeItem → Option Text
item_price none = none
item_price (some item) = price_id item.price

abbrev trimmed : Option Text → Option Text
trimmed none = none
trimmed (some t) = filled (trim t)

unfoldable pub normalize_stripe_subscription :
    StripeSubscription → Action NormalizedStripeSubscription
unfolding unix_to_date
normalize_stripe_subscription sub = do
  customer_id ← or_raise (expandable_id sub.customer) BillingError.missing_customer
  let item = first_item sub.items
  pure (record {
    id = sub.id;
    customer_id = customer_id;
    status = sub.status;
    price_id = item_price item;
    current_period_start =
        unix_to_date (or_item sub.current_period_start (of_item (λ i. i.period_start) item));
    current_period_end =
        unix_to_date (or_item sub.current_period_end (of_item (λ i. i.period_end) item));
    cancel_at_period_end = sub.cancel_at_period_end;
    canceled_at = unix_to_date sub.canceled_at;
    metadata_user_id = trimmed sub.metadata_user_id;
    metadata_plan = trimmed sub.metadata_plan;
  })

unfoldable pub map_stripe_subscription_status : StripeStatus → Option SubscriptionStatus
map_stripe_subscription_status StripeStatus.active = some SubscriptionStatus.active
map_stripe_subscription_status StripeStatus.trialing = some SubscriptionStatus.trialing
map_stripe_subscription_status StripeStatus.past_due = some SubscriptionStatus.past_due
map_stripe_subscription_status StripeStatus.unpaid = some SubscriptionStatus.unpaid
map_stripe_subscription_status StripeStatus.incomplete = some SubscriptionStatus.incomplete
map_stripe_subscription_status StripeStatus.incomplete_expired = some SubscriptionStatus.expired
map_stripe_subscription_status StripeStatus.canceled = some SubscriptionStatus.canceled
map_stripe_subscription_status StripeStatus.paused = some SubscriptionStatus.unpaid
map_stripe_subscription_status (StripeStatus.other _) = none
