-- ===== src/Billing/Webhook/Ordering.antt =====
-- The events that carry their subscription, customer.subscription.created, updated and deleted, in any order of
-- delivery. The other events that synchronise one ask Stripe for it when they are handled.
use buyseekk.Prelude.{
  ℕ, ◌*◌, suc, ◌≡◌, refl, sym, ap, ◌∙◌, inl, inr, false, none, some, List, [], ◌∷◌, Text,
  Option-cases,
}
use mathlib.Core.List.{Permᴰ}
use buyseekk.Shared.Effect.{ok, err}
use buyseekk.Billing.Store.{Store}
use buyseekk.Billing.Mapper.{
  StripeStatus, StripeSubscription, NormalizedStripeSubscription, expandable_id,
  map_stripe_subscription_status, normalize_stripe_subscription,
}
use buyseekk.Billing.Sync.Rows.{fields_at, sync_delivery, sync_refused}
use buyseekk.Billing.Sync.Converge.{delivery_of, deliver, deliver-Perm}
use buyseekk.Billing.Webhook.{
  EventObject, Provider, StripeEvent, Times, dispatch_supported_event, handle_subscription_changed,
  handle_subscription_deleted,
}

pub data SubscriptionChange : Type 0 where
  created updated deleted : SubscriptionChange

-- What the event of an id says: the same each time that it is delivered.
pub record SubscriptionReport : Type 0 where
  pub change : SubscriptionChange
  pub sub : StripeSubscription
  pub created : ℕ

abbrev object_of : SubscriptionChange → StripeSubscription → EventObject
object_of SubscriptionChange.created sub = EventObject.subscription_created sub
object_of SubscriptionChange.updated sub = EventObject.subscription_updated sub
object_of SubscriptionChange.deleted sub = EventObject.subscription_deleted sub

abbrev pub event_of : (Text → SubscriptionReport) → Text → StripeEvent
event_of reports id = record {
  id = id;
  created = (reports id).created;
  object = object_of (reports id).change (reports id).sub;
}

-- The handler runs for one event after the other, the i-th time with the clock `times i`.
abbrev pub dispatch_all :
    Provider → (ℕ → Times) → (Text → SubscriptionReport) → ℕ → List Text → Store → Store
dispatch_all provider times reports i [] store = store
dispatch_all provider times reports i (id ∷ ids) store =
    dispatch_all provider times reports (suc i) ids
      (dispatch_supported_event provider (times i) (event_of reports id) store).1

abbrev as_reported :
    SubscriptionChange → NormalizedStripeSubscription → NormalizedStripeSubscription
as_reported SubscriptionChange.deleted sub = record sub { status = StripeStatus.canceled }
as_reported _ sub = sub

-- A report that no synchronisation accepts.
abbrev no_report : NormalizedStripeSubscription
no_report = record {
  id = [];
  customer_id = [];
  status = StripeStatus.other [];
  price_id = none;
  current_period_start = none;
  current_period_end = none;
  cancel_at_period_end = false;
  canceled_at = none;
  metadata_user_id = none;
  metadata_plan = none;
}

abbrev no_store : Store
no_store = record { plans = []; subscriptions = []; customers = []; events = []; checkouts = [] }

-- What the synchronisation is given, where a subscription without a customer is an error.
abbrev normal_form : SubscriptionReport → NormalizedStripeSubscription
normal_form r = elim (normalize_stripe_subscription r.sub no_store).0 [
  | ok n ↦ as_reported r.change n
  | err e ↦ no_report
]

abbrev normal_report : (Text → SubscriptionReport) → Text → NormalizedStripeSubscription × ℕ
normal_report reports id = (normal_form (reports id), (reports id).created * 1000)

module _ (provider : Provider) (times : Times) (id : Text) (store : Store) where
  abbrev IsSynced : SubscriptionReport → Type 0
  IsSynced r =
      (dispatch_supported_event provider times (event_of (λ _. r) id) store).1
      ≡ sync_delivery provider.cuid times.synced_at (delivery_of (normal_report (λ _. r)) id) store

  nothing-IsSynced :
      (at : ℕ)
      → sync_delivery provider.cuid times.synced_at (delivery_of (λ _. (no_report, at)) id) store
        ≡ store
  unfolding map_stripe_subscription_status
  nothing-IsSynced at =
      sync_refused provider.cuid times.synced_at (delivery_of (λ _. (no_report, at)) id) store refl

  refused-normal_form :
      (r : SubscriptionReport) → expandable_id r.sub.customer ≡ none → normal_form r ≡ no_report
  unfolding normalize_stripe_subscription
  refused-normal_form r e = rw (normal_form, e) refl

  refused-store :
      (r : SubscriptionReport)
      → expandable_id r.sub.customer ≡ none
      → (dispatch_supported_event provider times (event_of (λ _. r) id) store).1 ≡ store
  unfolding dispatch_supported_event handle_subscription_changed handle_subscription_deleted
      normalize_stripe_subscription
  refused-store r e = elim_change r.change
    where
      elim_change :
          (c : SubscriptionChange)
          → (dispatch_supported_event provider times
              (event_of (λ _. record r { change = c }) id)
              store).1
            ≡ store
      elim_change SubscriptionChange.created = rw e refl
      elim_change SubscriptionChange.updated = rw e refl
      elim_change SubscriptionChange.deleted = rw e refl

  refused-IsSynced : (r : SubscriptionReport) → expandable_id r.sub.customer ≡ none → IsSynced r
  refused-IsSynced r e =
      refused-store r e ∙ sym (rw (refused-normal_form r e) (nothing-IsSynced (r.created * 1000)))

  given-IsSynced :
      (r : SubscriptionReport) {customer : Text}
      → expandable_id r.sub.customer ≡ some customer
      → IsSynced r
  unfolding dispatch_supported_event handle_subscription_changed handle_subscription_deleted
      normalize_stripe_subscription
  given-IsSynced r e = elim_change r.change
    where
      elim_change : (c : SubscriptionChange) → IsSynced (record r { change = c })
      elim_change SubscriptionChange.created = rw (e, normal_form) refl
      elim_change SubscriptionChange.updated = rw (e, normal_form) refl
      elim_change SubscriptionChange.deleted = rw (e, normal_form) refl

  dispatch-IsSynced : (r : SubscriptionReport) → IsSynced r
  dispatch-IsSynced r = elim (Option-cases (expandable_id r.sub.customer)) [
    | inl e ↦ refused-IsSynced r e
    | inr (customer, e) ↦ given-IsSynced r e
  ]

dispatch_all-deliver :
    (provider : Provider) (times : ℕ → Times) (reports : Text → SubscriptionReport) (i : ℕ)
    (ids : List Text) (store : Store)
    → dispatch_all provider times reports i ids store
      ≡ deliver provider.cuid (normal_report reports) (λ k. (times k).synced_at) i ids store
dispatch_all-deliver provider times reports i [] store = refl
dispatch_all-deliver provider times reports i (id ∷ ids) store =
    dispatch_all-deliver provider times reports (suc i) ids
      (dispatch_supported_event provider (times i) (event_of reports id) store).1
    ∙ ap (deliver provider.cuid (normal_report reports) (λ k. (times k).synced_at) (suc i) ids)
        (dispatch-IsSynced provider (times i) id store (reports id))

-- The events that carry their subscription may be handled in any order: two orders of the same events
-- customer.subscription.created, updated and deleted, at any times, repeats and subscriptions without a customer
-- included, leave the same values in the row of every subscription.
pub dispatch_all-Perm :
    (provider : Provider) (times times' : ℕ → Times) (reports : Text → SubscriptionReport)
    (sub_id : Text) {ids ids' : List Text} (store : Store)
    → Permᴰ ids ids'
    → fields_at sub_id (dispatch_all provider times reports 0 ids store)
      ≡ fields_at sub_id (dispatch_all provider times' reports 0 ids' store)
dispatch_all-Perm provider times times' reports sub_id {ids} {ids'} store p =
    ap (fields_at sub_id) (dispatch_all-deliver provider times reports 0 ids store)
    ∙ deliver-Perm provider.cuid (normal_report reports) sub_id (λ k. (times k).synced_at)
        (λ k. (times' k).synced_at) store p
    ∙ sym (ap (fields_at sub_id) (dispatch_all-deliver provider times' reports 0 ids' store))
