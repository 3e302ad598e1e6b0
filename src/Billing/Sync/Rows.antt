-- ===== src/Billing/Sync/Rows.antt =====
-- What a synchronisation leaves in the row of a subscription, and in the row of another one.
use buyseekk.Prelude.{
  ℕ, ◌≡◌, refl, ap, ◌∙◌, inl, inr, true, false, Option, none, some, List, Text, text_eq,
  if◌then◌else◌, arith, Bool-cases, Option-cases,
}
use mathlib.Core.Option
use buyseekk.Shared.TextOrder.{text_eq_refl, text_eq_sound}
use buyseekk.Shared.Keyed.{
  find_first, find_first-modify_first, find_first-modify_other, find_first-append_new,
  find_first-append_other,
}
use buyseekk.Shared.Subscription.{SubscriptionStatus}
use buyseekk.Billing.Store.{
  SubscriptionFields, SubscriptionRow, BillingCustomer, Store, is_subscription, find_subscription,
  find_customer, is_customer,
}
use buyseekk.Billing.Mapper.{NormalizedStripeSubscription, map_stripe_subscription_status}
use buyseekk.Billing.Sync.{
  should_skip_stale_event, fields_of, new_subscription, set_fields, upsert_subscription,
  sync_plan_cache_from_entitlements, is_foreign, is_stale, sync_stripe_subscription,
}

-- What the row of a subscription says.
abbrev pub fields_at : Text → Store → Option SubscriptionFields
fields_at id store = Option.map (λ r. r.fields) (find_subscription id store)

is_subscription_other :
    (id other : Text) (r : SubscriptionRow)
    → text_eq id other ≡ false
    → is_subscription id r ≡ true
    → is_subscription other r ≡ false
is_subscription_other id other r ne h = ground (arith, text_eq_sound r.provider_subscription_id id)

module _ (now : ℕ) (id : Text) (fields : SubscriptionFields) (store : Store) where
  upsert_subscription_self : fields_at id (upsert_subscription now id fields store) ≡ some fields
  unfolding upsert_subscription
  upsert_subscription_self = elim (Option-cases (find_subscription id store)) [
    | inl e ↦
        rw (e, upsert_subscription)
          (ap (Option.map (λ r. r.fields)) (
            find_first-append_new (is_subscription id) (new_subscription now id fields)
              store.subscriptions e (ground (arith, text_eq_refl id))))
    | inr (row, e) ↦
        rw (e, upsert_subscription)
          (ap (Option.map (λ r. r.fields)) (
            find_first-modify_first (is_subscription id) (set_fields now fields) (λ r. refl)
              store.subscriptions
            ∙ ap (Option.map (set_fields now fields)) e))
  ]

  upsert_subscription_other :
      (other : Text)
      → text_eq id other ≡ false
      → fields_at other (upsert_subscription now id fields store) ≡ fields_at other store
  unfolding upsert_subscription
  upsert_subscription_other other ne = elim (Option-cases (find_subscription id store)) [
    | inl e ↦
        rw (e, upsert_subscription)
          (ap (Option.map (λ r. r.fields)) (
            find_first-append_other (is_subscription other) (new_subscription now id fields)
              store.subscriptions (ground arith)))
    | inr (row, e) ↦
        rw (e, upsert_subscription)
          (ap (Option.map (λ r. r.fields)) (
            find_first-modify_other (is_subscription id) (is_subscription other)
              (set_fields now fields) (λ r h. refl) (λ r h. is_subscription_other id other r ne h)
              store.subscriptions))
  ]

-- A report of a subscription with the event that brings it.
pub record Delivery : Type 0 where
  pub sub : NormalizedStripeSubscription
  pub at : ℕ
  pub event_id : Text

-- What one delivery makes of the row, where the status and the owner are known.
abbrev pub settle :
    Option SubscriptionFields
    → BillingCustomer
    → SubscriptionStatus
    → Delivery
    → Option SubscriptionFields
settle none customer status d = some (fields_of customer status d.sub d.at d.event_id)
settle (some f) customer status d =
    if should_skip_stale_event f status d.at d.event_id
    then some f
    else some (fields_of customer status d.sub d.at d.event_id)

-- The owner and the status that a delivery for the subscription gives, unless it is refused.
unfoldable pub accepted :
    (ℕ → Text)
    → Text
    → List BillingCustomer
    → Delivery
    → Option (BillingCustomer × SubscriptionStatus)
accepted cuid id customers d = elim (map_stripe_subscription_status d.sub.status) [
  | none ↦ none
  | some status ↦ elim (find_first (is_customer d.sub.customer_id) customers) [
    | none ↦ none
    | some customer ↦
        if is_foreign d.sub.metadata_user_id (cuid customer.user_id)
        then none
        else if text_eq d.sub.id id
        then some (customer, status)
        else none
  ]
]

unfoldable pub absorb :
    (ℕ → Text)
    → Text
    → List BillingCustomer
    → Delivery
    → Option SubscriptionFields
    → Option SubscriptionFields
absorb cuid id customers d o = elim (accepted cuid id customers d) [
  | none ↦ o
  | some (customer, status) ↦ settle o customer status d
]

abbrev pub sync_delivery : (ℕ → Text) → ℕ → Delivery → Store → Store
sync_delivery cuid now d store = (sync_stripe_subscription cuid now d.sub d.at d.event_id store).1

module _ (cuid : ℕ → Text) (now : ℕ) (d : Delivery) (store : Store) where
  pub sync-customers : (sync_delivery cuid now d store).customers ≡ store.customers
  unfolding sync_stripe_subscription upsert_subscription
  sync-customers = ground arith

  pub sync_refused :
      map_stripe_subscription_status d.sub.status ≡ none → sync_delivery cuid now d store ≡ store
  unfolding sync_stripe_subscription
  sync_refused e = ground arith

  module _ {status : SubscriptionStatus}
      (mapped : map_stripe_subscription_status d.sub.status ≡ some status) where
    sync_unowned :
        find_customer d.sub.customer_id store ≡ none → sync_delivery cuid now d store ≡ store
    unfolding sync_stripe_subscription
    sync_unowned e = ground arith

    sync_foreign :
        {customer : BillingCustomer}
        → find_customer d.sub.customer_id store ≡ some customer
        → is_foreign d.sub.metadata_user_id (cuid customer.user_id) ≡ true
        → sync_delivery cuid now d store ≡ store
    unfolding sync_stripe_subscription
    sync_foreign e f = ground arith

    module _ {customer : BillingCustomer}
        (owner : find_customer d.sub.customer_id store ≡ some customer)
        (owned : is_foreign d.sub.metadata_user_id (cuid customer.user_id) ≡ false) where
      sync_owned :
          (id : Text)
          → fields_at id (sync_delivery cuid now d store) ≡ (
              if is_stale (find_subscription d.sub.id store) status d.at d.event_id
              then fields_at id store
              else fields_at id (
                  upsert_subscription now d.sub.id
                    (fields_of customer status d.sub d.at d.event_id)
                    store))
      unfolding sync_stripe_subscription sync_plan_cache_from_entitlements
      sync_owned id = ground arith

      sync_other :
          (id : Text)
          → text_eq d.sub.id id ≡ false
          → fields_at id (sync_delivery cuid now d store) ≡ fields_at id store
      sync_other id ne = ground (
        arith,
        sync_owned id,
        upsert_subscription_other now d.sub.id (fields_of customer status d.sub d.at d.event_id)
            store id ne,
      )

      sync_self :
          fields_at d.sub.id (sync_delivery cuid now d store)
          ≡ settle (fields_at d.sub.id store) customer status d
      sync_self = ground (
        arith,
        sync_owned d.sub.id,
        upsert_subscription_self now d.sub.id (fields_of customer status d.sub d.at d.event_id)
            store,
      )

  pub sync-fields_at :
      (id : Text)
      → fields_at id (sync_delivery cuid now d store)
        ≡ absorb cuid id store.customers d (fields_at id store)
  unfolding absorb accepted
  sync-fields_at id = elim (Option-cases (map_stripe_subscription_status d.sub.status)) [
    | inl e ↦ ground (arith, ap (fields_at id) (sync_refused e))
    | inr (status, mapped) ↦ elim (Option-cases (find_customer d.sub.customer_id store)) [
      | inl e ↦ ground (arith, ap (fields_at id) (sync_unowned mapped e))
      | inr (customer, owner) ↦
          elim (Bool-cases (is_foreign d.sub.metadata_user_id (cuid customer.user_id))) [
            | inl f ↦ ground (arith, ap (fields_at id) (sync_foreign mapped owner f))
            | inr f ↦ elim (Bool-cases (text_eq d.sub.id id)) [
              | inl e ↦ ground (arith, text_eq_sound d.sub.id id e, sync_self mapped owner f)
              | inr e ↦ ground (arith, sync_other mapped owner f id e)
            ]
          ]
    ]
  ]
