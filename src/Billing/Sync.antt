-- ===== src/Billing/Sync.antt =====
-- `syncStripeSubscription` of apps/api/src/billing/stripe-webhook.service.ts, with the order of
-- provider events, and `syncPlanCacheFromEntitlements` of apps/api/src/subscription/subscription.service.ts.
pub mod Order
pub mod Rows
pub mod Converge
pub mod Cache
use buyseekk.Prelude.{
  ℕ, Bool, true, false, Option, none, some, List, [], ◌∷◌, ◌++◌, ◌==◌, ◌&&◌, not, ltb, select, map,
  modify, get_elem?, is_empty, Text, text_eq, if◌then◌else◌,
}
use buyseekk.Shared.TextOrder.{leb_text}
use buyseekk.Shared.Keyed.{modify_first}
use buyseekk.Shared.Subscription.{
  SubscriptionStatus, SubscriptionPlan, SubscriptionEntitlementInput, any_subscription_grants_plus,
  plan_from_plus_entitlement,
}
use buyseekk.Access.{is_candidate}
use buyseekk.Billing.Store.{
  SubscriptionProvider, SubscriptionFields, SubscriptionRow, BillingCustomer, Store,
  is_subscription, find_subscription, find_customer,
}
use buyseekk.Billing.Mapper.{NormalizedStripeSubscription, map_stripe_subscription_status}

unfoldable pub subscription_status_rank : SubscriptionStatus → ℕ
subscription_status_rank SubscriptionStatus.canceled = 60
subscription_status_rank SubscriptionStatus.expired = 50
subscription_status_rank SubscriptionStatus.unpaid = 40
subscription_status_rank SubscriptionStatus.incomplete = 30
subscription_status_rank SubscriptionStatus.past_due = 20
subscription_status_rank SubscriptionStatus.active = 10
subscription_status_rank SubscriptionStatus.trialing = 10

-- `existing.lastProviderEventId && providerEventId <= existing.lastProviderEventId`
abbrev pub id_is_old : Option Text → Text → Bool
id_is_old none id = false
id_is_old (some last) id = not (is_empty last) && leb_text id last

-- The earlier time, then the lower rank; `tie` decides between equal ones.
abbrev pub older : ℕ → ℕ → ℕ → ℕ → Bool → Bool
older at rank last existing_rank tie =
    if ltb at last
    then true
    else if ltb last at
    then false
    else if ltb rank existing_rank
    then true
    else if ltb existing_rank rank
    then false
    else tie

unfoldable pub should_skip_stale_event : SubscriptionFields → SubscriptionStatus → ℕ → Text → Bool
unfolding subscription_status_rank
should_skip_stale_event existing status at id = elim existing.last_provider_event_at [
  | none ↦ false
  | some last ↦
      older at (subscription_status_rank status) last (subscription_status_rank existing.status)
        (id_is_old existing.last_provider_event_id id)
]

-- What the upsert writes for a snapshot of a subscription and the event that brings it.
abbrev pub fields_of :
    BillingCustomer
    → SubscriptionStatus
    → NormalizedStripeSubscription
    → ℕ
    → Text
    → SubscriptionFields
fields_of customer status sub at id = record {
  user_id = customer.user_id;
  provider_customer_id = some sub.customer_id;
  provider_price_id = sub.price_id;
  status = status;
  current_period_start = sub.current_period_start;
  current_period_end = sub.current_period_end;
  cancel_at_period_end = sub.cancel_at_period_end;
  canceled_at = sub.canceled_at;
  last_provider_event_at = some at;
  last_provider_event_id = some id;
}

abbrev pub new_subscription : ℕ → Text → SubscriptionFields → SubscriptionRow
new_subscription now id fields = record {
  provider = SubscriptionProvider.stripe;
  provider_subscription_id = id;
  fields = fields;
  created_at = now;
  updated_at = now;
}

abbrev pub set_fields : ℕ → SubscriptionFields → SubscriptionRow → SubscriptionRow
set_fields now fields r = record r { fields = fields; updated_at = now }

-- `subscription.upsert` by the provider's id.
unfoldable pub upsert_subscription : ℕ → Text → SubscriptionFields → Store → Store
upsert_subscription now id fields store = elim (find_subscription id store) [
  | none ↦ record store {
    subscriptions = store.subscriptions ++ new_subscription now id fields ∷ [];
  }
  | some _ ↦ record store {
    subscriptions = modify_first (is_subscription id) (set_fields now fields) store.subscriptions;
  }
]

abbrev entitlement : SubscriptionRow → SubscriptionEntitlementInput
entitlement r = record {
  status = r.fields.status;
  current_period_end = r.fields.current_period_end;
}

-- The user's rows in a candidate status, whatever their provider.
abbrev pub granting_rows : ℕ → Store → List SubscriptionEntitlementInput
granting_rows user_id store =
    map entitlement (
      select (λ r. r.fields.user_id == user_id && is_candidate r.fields.status) store.subscriptions)

unfoldable pub has_plus : ℕ → ℕ → Store → Bool
has_plus user_id now store = any_subscription_grants_plus (granting_rows user_id store) now

-- Nothing is written for a user who is gone; a plan that is right already is written as it is.
unfoldable pub sync_plan_cache_from_entitlements : ℕ → ℕ → Store → Store
unfolding has_plus
sync_plan_cache_from_entitlements user_id now store = record store {
  plans = modify store.plans user_id (λ _. plan_from_plus_entitlement (has_plus user_id now store));
}

pub data SyncResult : Type 0 where
  synced skipped_stale skipped_unknown_status skipped_no_customer : SyncResult

-- `metadataUserId && metadataUserId !== customer.userId`
abbrev pub is_foreign : Option Text → Text → Bool
is_foreign none owner = false
is_foreign (some user_id) owner = not (is_empty user_id) && not (text_eq user_id owner)

abbrev pub is_stale : Option SubscriptionRow → SubscriptionStatus → ℕ → Text → Bool
is_stale none status at id = false
is_stale (some row) status at id = should_skip_stale_event row.fields status at id

-- `cuid` is the text of a user's id.
unfoldable pub sync_stripe_subscription :
    (ℕ → Text) → ℕ → NormalizedStripeSubscription → ℕ → Text → Store → SyncResult × Store
unfolding should_skip_stale_event upsert_subscription sync_plan_cache_from_entitlements
sync_stripe_subscription cuid now sub at id store =
    elim (map_stripe_subscription_status sub.status) [
      | none ↦ (SyncResult.skipped_unknown_status, store)
      | some status ↦ elim (find_customer sub.customer_id store) [
        | none ↦ (SyncResult.skipped_no_customer, store)
        | some customer ↦
            if is_foreign sub.metadata_user_id (cuid customer.user_id)
            then (SyncResult.skipped_no_customer, store)
            else if is_stale (find_subscription sub.id store) status at id
            then (SyncResult.skipped_stale, store)
            else (
              SyncResult.synced,
              sync_plan_cache_from_entitlements customer.user_id now
                  (upsert_subscription now sub.id (fields_of customer status sub at id) store),
            )
      ]
    ]
