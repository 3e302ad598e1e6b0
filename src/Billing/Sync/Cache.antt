-- ===== src/Billing/Sync/Cache.antt =====
-- The plan that a user is shown after a synchronisation.
use buyseekk.Prelude.{
  ℕ, ◌≡◌, sym, subst, ap, ◌∙◌, inl, inr, true, false, none, some, get_elem?, get_elem?-modify_self,
  Text, arith, Option-cases,
}
use buyseekk.Shared.Subscription.{SubscriptionStatus, SubscriptionPlan, plan_from_plus_entitlement}
use buyseekk.Billing.Store.{BillingCustomer, Store, find_customer}
use buyseekk.Billing.Mapper.{NormalizedStripeSubscription, map_stripe_subscription_status}
use buyseekk.Billing.Sync.{
  has_plus, fields_of, upsert_subscription, sync_plan_cache_from_entitlements, SyncResult,
  sync_stripe_subscription,
}

sync_plan_self :
    (user_id now : ℕ) (store : Store) {plan : SubscriptionPlan}
    → get_elem? store.plans user_id ≡ some plan
    → let store' = sync_plan_cache_from_entitlements user_id now store in
      get_elem? store'.plans user_id
      ≡ some (plan_from_plus_entitlement (has_plus user_id now store'))
unfolding sync_plan_cache_from_entitlements has_plus
sync_plan_self user_id now store h =
    get_elem?-modify_self store.plans user_id
      (λ _. plan_from_plus_entitlement (has_plus user_id now store)) h

upsert-plans :
    (now : ℕ) (customer : BillingCustomer) (status : SubscriptionStatus)
    (sub : NormalizedStripeSubscription) (at : ℕ) (id : Text) (store : Store)
    → (upsert_subscription now sub.id (fields_of customer status sub at id) store).plans
      ≡ store.plans
unfolding upsert_subscription
upsert-plans now customer status sub at id store = ground arith

module _ (cuid : ℕ → Text) (now : ℕ) (sub : NormalizedStripeSubscription) (at : ℕ) (id : Text)
    (store : Store) where
  -- What a synchronisation that goes through has written.
  synced-eq :
      {customer : BillingCustomer}
      → find_customer sub.customer_id store ≡ some customer
      → (sync_stripe_subscription cuid now sub at id store).0 ≡ SyncResult.synced
      → (status : SubscriptionStatus) × ((sync_stripe_subscription cuid now sub at id store).1
          ≡ sync_plan_cache_from_entitlements customer.user_id now
              (upsert_subscription now sub.id (fields_of customer status sub at id) store))
  unfolding sync_stripe_subscription
  synced-eq {customer} owner h = elim (Option-cases (map_stripe_subscription_status sub.status)) [
    | inl e ↦ absurd (cc (unknown e))
    | inr (status, mapped) ↦ (status, ground arith)
  ]
    where
      unknown : map_stripe_subscription_status sub.status ≡ none → false ≡ true
      unknown e = ground arith

-- A synchronisation that goes through leaves the user of the Stripe customer, whose account exists,
-- with the plan that the user's subscription rows grant at that time, the new row included.
pub sync-eq-synced :
    (cuid : ℕ → Text) (now : ℕ) (sub : NormalizedStripeSubscription) (at : ℕ) (id : Text)
    (store : Store) {customer : BillingCustomer} {plan : SubscriptionPlan}
    → find_customer sub.customer_id store ≡ some customer
    → get_elem? store.plans customer.user_id ≡ some plan
    → (sync_stripe_subscription cuid now sub at id store).0 ≡ SyncResult.synced
    → let store' = (sync_stripe_subscription cuid now sub at id store).1 in
      get_elem? store'.plans customer.user_id
      ≡ some (plan_from_plus_entitlement (has_plus customer.user_id now store'))
sync-eq-synced cuid now sub at id store {customer} {plan} owner user h =
    let (status, e) = synced-eq cuid now sub at id store owner h in
    let before = upsert_subscription now sub.id (fields_of customer status sub at id) store in
    subst
      (λ (s : Store).
        get_elem? s.plans customer.user_id
        ≡ some (plan_from_plus_entitlement (has_plus customer.user_id now s)))
      (sym e)
      (sync_plan_self customer.user_id now before (
        ap (λ plans. get_elem? plans customer.user_id)
          (upsert-plans now customer status sub at id store)
        ∙ user))
