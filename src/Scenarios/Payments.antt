-- ===== src/Scenarios/Payments.antt =====
-- A user with a Stripe customer and what Stripe reports of the subscription, in one order and in another.
use buyseekk.Prelude.{
  ◌&&◌, ℕ, ◌+◌, ◌≤◌, ◌≡◌, refl, true, false, none, some, List, [], ◌∷◌, Text, text_eq, length,
  get_elem?, arith, if◌then◌else◌,
}
use mathlib.Core.List.{Permᴰ}
use buyseekk.Shared.Effect.{ok, err}
use buyseekk.Shared.Subscription.{SubscriptionPlan, SubscriptionStatus, plan_from_plus_entitlement}
use buyseekk.Billing.Store.{
  SubscriptionProvider, BillingEvent, BillingCheckoutStatus, BillingCheckoutSession, Store,
  BillingError, find_event,
}
use buyseekk.Billing.Mapper.{
  map_stripe_subscription_status, normalize_stripe_subscription, StripeStatus, Expandable,
  StripeSubscription, NormalizedStripeSubscription,
}
use buyseekk.Billing.Claim.{
  mark_billing_event_processed, ClaimState, ClaimResult, claim_billing_event, lease_active,
}
use buyseekk.Billing.Claim.Leases.{Statement, execute_all, IsSpaced}
use buyseekk.Billing.Claim.Exclusive.{attempts, execute_all-IsSpaced}
use buyseekk.Billing.Claim.Processed.{IsProcessed, execute_all_of_IsProcessed}
use buyseekk.Billing.Sync.{has_plus, sync_stripe_subscription, SyncResult}
use buyseekk.Billing.Sync.Rows.{fields_at}
use buyseekk.Billing.Webhook.Ordering.{
  SubscriptionChange, SubscriptionReport, dispatch_all, dispatch_all-Perm,
}
use buyseekk.Billing.Sync.Cache.{sync-eq-synced}
use buyseekk.Billing.Webhook.{
  dispatch_supported_event, Provider, StripeEvent, EventObject, Times, HandleResult, handle_event,
}
use buyseekk.Billing.Webhook.Replay.{handle_event_again, handle_event_retried}
use buyseekk.Billing.Checkout.{
  CheckoutProvider, is_complete_open_checkout, get_or_create_open_checkout_session,
}
use buyseekk.Billing.Checkout.Current.{open_attempts}
use buyseekk.Billing.Checkout.Reuse.{get_or_create_again}
use buyseekk.Billing.Status.{StatusProvider, schedule_cancel_at_period_end, build_billing_status}
use buyseekk.Billing.Status.Agreement.{succeeds, schedule_iff_can_cancel}

abbrev customer_id : Text
customer_id = 99 ∷ 1 ∷ []

abbrev subscription_id : Text
subscription_id = 115 ∷ 1 ∷ []

abbrev first_event : Text
first_event = 101 ∷ 1 ∷ []

abbrev second_event : Text
second_event = 101 ∷ 2 ∷ []

abbrev cuid : ℕ → Text
cuid id = 117 ∷ id ∷ []

abbrev billed : Store
billed = record {
  plans = SubscriptionPlan.free ∷ [];
  subscriptions = [];
  customers = record { user_id = 0; provider_customer_id = customer_id } ∷ [];
  events = [];
  checkouts = [];
}

abbrev snapshot : StripeStatus → NormalizedStripeSubscription
snapshot status = record {
  id = subscription_id;
  customer_id = customer_id;
  status = status;
  price_id = none;
  current_period_start = none;
  current_period_end = some 900_000;
  cancel_at_period_end = false;
  canceled_at = none;
  metadata_user_id = none;
  metadata_plan = none;
}

-- Two workers meet at an event; a third one comes when the lease is over.
abbrev meeting : List Statement
meeting =
    Statement.claiming 1000 first_event ClaimState.inserting
    ∷ Statement.claiming 1001 first_event ClaimState.inserting
    ∷ Statement.claiming 1001 first_event ClaimState.conflicted
    ∷ Statement.claiming 200_000 first_event ClaimState.stale
    ∷ []

execute_all-IsSpaced_example :
    IsSpaced (execute_all first_event meeting ([], billed)).0
    × (attempts (find_event first_event (execute_all first_event meeting ([], billed)).1)
        ≡ length (execute_all first_event meeting ([], billed)).0)
execute_all-IsSpaced_example = execute_all-IsSpaced first_event meeting billed refl

abbrev processed : Store
processed = record billed {
  events =
      record {
        provider_event_id = first_event;
        processing_started_at = some 1000;
        processed_at = some 1500;
        attempt_count = 1;
      }
      ∷ [];
}

execute_all_of_IsProcessed_example :
    ((execute_all first_event meeting (1000 ∷ [], processed)).0 ≡ 1000 ∷ [])
    × IsProcessed
        (find_event first_event (execute_all first_event meeting (1000 ∷ [], processed)).1)
execute_all_of_IsProcessed_example =
    execute_all_of_IsProcessed first_event meeting (1000 ∷ []) processed refl

abbrev silent : Provider
silent = record {
  retrieve_subscription = λ id. err (BillingError.provider_error false);
  cuid = cuid;
}

abbrev at_second : ℕ → Times
at_second t = record { claimed_at = t; synced_at = t + 1; processed_at = t + 2 }

abbrev stripe_subscription : StripeSubscription
stripe_subscription = record {
  id = subscription_id;
  customer = Expandable.id_of customer_id;
  status = StripeStatus.active;
  items = [];
  current_period_start = none;
  current_period_end = some 900;
  cancel_at_period_end = false;
  canceled_at = none;
  metadata_user_id = none;
  metadata_plan = none;
}

-- The second event deletes what the first one has reported in the same second.
abbrev reports : Text → SubscriptionReport
reports id = record {
  change =
      if text_eq id second_event then SubscriptionChange.deleted else SubscriptionChange.created;
  sub = stripe_subscription;
  created = 5;
}

dispatch_all-Perm_example :
    fields_at subscription_id
      (dispatch_all silent at_second reports 0 (first_event ∷ second_event ∷ []) billed)
    ≡ fields_at subscription_id (
        dispatch_all silent
          (λ i. at_second (i + 9))
          reports
          0
          (second_event ∷ first_event ∷ [])
          billed)
dispatch_all-Perm_example =
    dispatch_all-Perm silent at_second (λ i. at_second (i + 9)) reports subscription_id billed
      (Permᴰ.swap {a = first_event} {b = second_event} {l = []} refl refl)

abbrev created_event : StripeEvent
created_event = record {
  id = first_event;
  created = 5;
  object = EventObject.subscription_created stripe_subscription;
}

created_ok :
    (handle_event silent (at_second 6000) created_event billed).0 ≡ ok HandleResult.received
unfolding handle_event claim_billing_event dispatch_supported_event normalize_stripe_subscription
    mark_billing_event_processed sync_stripe_subscription map_stripe_subscription_status
created_ok = refl

handle_event_again_example :
    handle_event silent
      (at_second 7000)
      created_event
      (handle_event silent (at_second 6000) created_event billed).1
    ≡ (
      ok HandleResult.received_duplicate,
      (handle_event silent (at_second 6000) created_event billed).1,
    )
handle_event_again_example =
    handle_event_again silent (at_second 6000) created_event billed silent (at_second 7000)
      created_ok

-- A payment failed, and Stripe does not answer when it is asked for the subscription.
abbrev failed_event : StripeEvent
failed_event = record {
  id = second_event;
  created = 5;
  object = EventObject.invoice_payment_failed (record {
    subscription = Expandable.id_of subscription_id;
    parent_subscription = Expandable.missing;
  });
}

failed_err :
    (handle_event silent (at_second 6000) failed_event billed).0
    ≡ err (BillingError.provider_error false)
unfolding handle_event claim_billing_event dispatch_supported_event
failed_err = refl

handle_event_retried_example :
    let store' = (handle_event silent (at_second 6000) failed_event billed).1 in
    (row : BillingEvent) × (find_event second_event store' ≡ some row)
    × (row.processed_at ≡ none)
    × ((claim_billing_event 200_000 second_event store').0 ≡ (
        if lease_active 200_000 row.processing_started_at
        then ClaimResult.in_progress
        else ClaimResult.claimed))
handle_event_retried_example =
    handle_event_retried silent (at_second 6000) failed_event billed 200_000 failed_err

synced_ok :
    (sync_stripe_subscription cuid 6000 (snapshot StripeStatus.active) 5000 first_event billed).0
    ≡ SyncResult.synced
unfolding sync_stripe_subscription map_stripe_subscription_status
synced_ok = refl

sync-eq-synced_example :
    let store' =
      (sync_stripe_subscription cuid 6000
        (snapshot StripeStatus.active)
        5000
        first_event
        billed).1 in
    get_elem? store'.plans 0 ≡ some (plan_from_plus_entitlement (has_plus 0 6000 store'))
sync-eq-synced_example =
    sync-eq-synced cuid 6000 (snapshot StripeStatus.active) 5000 first_event billed
      {customer = record { user_id = 0; provider_customer_id = customer_id }} refl refl synced_ok

abbrev paying : CheckoutProvider
paying = record {
  create_customer = λ user_id. ok customer_id;
  create_checkout_session = λ customer user_id attempt.
      ok (record { id = 120 ∷ []; url = 121 ∷ []; expires_at_unix = none });
  billing_enabled = true;
  plus_features_unlocked = false;
  configured = true;
}

abbrev paid_session : BillingCheckoutSession
paid_session = record {
  user_id = 0;
  provider_session_id = some (120 ∷ []);
  checkout_url = some (121 ∷ []);
  status = BillingCheckoutStatus.open_session;
  expires_at = 82_800_010;
  created_at = 10;
}

checkout_ok :
    (get_or_create_open_checkout_session paying 0 customer_id 10 billed).0 ≡ ok paid_session
unfolding get_or_create_open_checkout_session
checkout_ok = refl

paid_complete : is_complete_open_checkout paid_session ≡ true
unfolding is_complete_open_checkout
paid_complete = refl

get_or_create_again_example :
    let store' = (get_or_create_open_checkout_session paying 0 customer_id 10 billed).1 in
    (get_or_create_open_checkout_session paying 0 customer_id 500 store'
      ≡ (ok paid_session, store'))
    × (open_attempts 0 store' ≤ 1)
get_or_create_again_example =
    get_or_create_again paying paying 0 customer_id customer_id 10 500 billed {row = paid_session}
      (omega arith) checkout_ok paid_complete (omega arith)

abbrev answering : StatusProvider
answering = record {
  set_cancel_at_period_end = λ id cancel. ok (snapshot StripeStatus.active);
  cuid = cuid;
  billing_enabled = true;
  plus_features_unlocked = false;
}

abbrev subscribed : Store
subscribed = record billed {
  subscriptions =
      record {
        provider = SubscriptionProvider.stripe;
        provider_subscription_id = subscription_id;
        fields = record {
          user_id = 0;
          provider_customer_id = some customer_id;
          provider_price_id = none;
          status = SubscriptionStatus.active;
          current_period_start = none;
          current_period_end = some 900_000;
          cancel_at_period_end = false;
          canceled_at = none;
          last_provider_event_at = some 5000;
          last_provider_event_id = some first_event;
        };
        created_at = 1;
        updated_at = 1;
      }
      ∷ [];
}

schedule_iff_can_cancel_example :
    succeeds (schedule_cancel_at_period_end answering 0 6000 subscribed).0 ≡ (
      answering.billing_enabled
      && (build_billing_status answering 0 6000 subscribed).can_cancel_in_buyseek)
schedule_iff_can_cancel_example =
    schedule_iff_can_cancel answering 0 6000 subscribed (λ id cancel. refl)
