-- ===== src/Billing/Status.antt =====
-- The plan page of apps/api/src/billing/billing.service.ts: what it shows of a subscription, and the cancellation at the period's end,
-- scheduled and undone. Stripe's answer to the change is a parameter.
pub mod Agreement
use buyseekk.Prelude.{
  ℕ, Bool, true, false, not, Option, none, some, List, [], ◌∷◌, ◌++◌, ◌==◌, ◌&&◌, ◌||◌, ltb,
  is_empty, Text, if◌then◌else◌,
}
use buyseekk.Shared.Decimal.{decimal}
use buyseekk.Shared.Effect.{Outcome, ok, err, pure, raise, gets, or_raise, raise_if, ◌>>=◌, ◌>>◌}
use buyseekk.Shared.Keyed.{best_from}
use buyseekk.Shared.Subscription.{SubscriptionStatus, SubscriptionPlan}
use buyseekk.Access.{is_candidate}
use buyseekk.Billing.Store.{SubscriptionRow, Store, BillingError, Action, is_stripe}
use buyseekk.Billing.Mapper.{NormalizedStripeSubscription}
use buyseekk.Billing.Sync.{has_plus, sync_stripe_subscription}

pub record StatusProvider : Type 0 where
  pub set_cancel_at_period_end : Text → Bool → Outcome BillingError NormalizedStripeSubscription
  pub cuid : ℕ → Text
  pub billing_enabled : Bool
  pub plus_features_unlocked : Bool

pub record BillingStatus : Type 0 where
  pub plan : SubscriptionPlan
  pub status : Option SubscriptionStatus
  pub cancel_at_period_end : Bool
  pub current_period_end : Option ℕ
  pub can_cancel_in_buyseek : Bool
  pub can_resume_in_buyseek : Bool
  pub managed_by_stripe : Bool

-- `updatedAt` descending, then `createdAt` descending.
abbrev pub is_fresher : SubscriptionRow → SubscriptionRow → Bool
is_fresher a b =
    ltb b.updated_at a.updated_at || a.updated_at == b.updated_at && ltb b.created_at a.created_at

-- A manageable status is one that may grant Plus.
abbrev pub is_manageable : ℕ → SubscriptionRow → Bool
is_manageable user_id r =
    r.fields.user_id == user_id && is_stripe r.provider && is_candidate r.fields.status

unfoldable pub find_primary_stripe_subscription : ℕ → Store → Option SubscriptionRow
find_primary_stripe_subscription user_id store =
    elim (best_from is_fresher (is_manageable user_id) 0 store.subscriptions) [
      | none ↦ none
      | some (_, row) ↦ some row
    ]

unfoldable pub entitled : StatusProvider → ℕ → ℕ → Store → Bool
entitled provider user_id now store = provider.plus_features_unlocked || has_plus user_id now store

abbrev free_status : BillingStatus
free_status = record {
  plan = SubscriptionPlan.free;
  status = none;
  cancel_at_period_end = false;
  current_period_end = none;
  can_cancel_in_buyseek = false;
  can_resume_in_buyseek = false;
  managed_by_stripe = false;
}

abbrev plus_status : SubscriptionRow → BillingStatus
plus_status row =
    let can_manage = is_stripe row.provider && not (is_empty row.provider_subscription_id) in
    record {
      plan = SubscriptionPlan.plus;
      status = some row.fields.status;
      cancel_at_period_end = row.fields.cancel_at_period_end;
      current_period_end = row.fields.current_period_end;
      can_cancel_in_buyseek = can_manage && not row.fields.cancel_at_period_end;
      can_resume_in_buyseek = can_manage && row.fields.cancel_at_period_end;
      managed_by_stripe = can_manage;
    }

unfoldable pub build_billing_status : StatusProvider → ℕ → ℕ → Store → BillingStatus
unfolding find_primary_stripe_subscription entitled
build_billing_status provider user_id now store =
    elim (find_primary_stripe_subscription user_id store) [
      | none ↦ free_status
      | some row ↦ if entitled provider user_id now store then plus_status row else free_status
    ]

abbrev manageable_row : ℕ → Option SubscriptionRow → Action SubscriptionRow
manageable_row user_id none store = (err BillingError.no_manageable_subscription, store)
manageable_row user_id (some row) store =
    if is_empty row.provider_subscription_id || not (row.fields.user_id == user_id)
    then (err BillingError.no_manageable_subscription, store)
    else (ok row, store)

unfoldable pub require_manageable_stripe_subscription : ℕ → Action SubscriptionRow
unfolding find_primary_stripe_subscription
require_manageable_stripe_subscription user_id store =
    manageable_row user_id (find_primary_stripe_subscription user_id store) store

-- "api:cancel:", "api:resume:" and ":" in the id of a change that the user asked for.
abbrev api_text : Bool → Text
api_text true = 97 ∷ 112 ∷ 105 ∷ 58 ∷ 99 ∷ 97 ∷ 110 ∷ 99 ∷ 101 ∷ 108 ∷ 58 ∷ []
api_text false = 97 ∷ 112 ∷ 105 ∷ 58 ∷ 114 ∷ 101 ∷ 115 ∷ 117 ∷ 109 ∷ 101 ∷ 58 ∷ []

unfoldable pub sync_management_snapshot :
    StatusProvider → NormalizedStripeSubscription → Bool → ℕ → Action (Unit {0})
sync_management_snapshot provider snapshot cancel now store =
    let sync_id = api_text cancel ++ snapshot.id ++ 58 ∷ decimal now in
    (ok tt, (sync_stripe_subscription provider.cuid now snapshot now sync_id store).1)

-- The change at the provider and its synchronisation; any failure is the provider's.
unfoldable pub set_cancel : StatusProvider → SubscriptionRow → Bool → ℕ → Action (Unit {0})
unfolding sync_management_snapshot
set_cancel provider row cancel now store =
    elim (provider.set_cancel_at_period_end row.provider_subscription_id cancel) [
      | err e ↦ (err BillingError.billing_provider_failed, store)
      | ok snapshot ↦ sync_management_snapshot provider snapshot cancel now store
    ]

unfoldable pub schedule_cancel_at_period_end : StatusProvider → ℕ → ℕ → Action BillingStatus
unfolding require_manageable_stripe_subscription entitled set_cancel build_billing_status
schedule_cancel_at_period_end provider user_id now = do
  raise_if (not provider.billing_enabled) BillingError.billing_unavailable
  row ← require_manageable_stripe_subscription user_id
  plus ← gets (entitled provider user_id now)
  raise_if (not plus) BillingError.no_plus_entitlement
  raise_if row.fields.cancel_at_period_end BillingError.cancel_already_scheduled
  set_cancel provider row true now
  gets (build_billing_status provider user_id now)

unfoldable pub resume_subscription : StatusProvider → ℕ → ℕ → Action BillingStatus
unfolding require_manageable_stripe_subscription set_cancel build_billing_status
resume_subscription provider user_id now = do
  raise_if (not provider.billing_enabled) BillingError.billing_unavailable
  row ← require_manageable_stripe_subscription user_id
  raise_if (not row.fields.cancel_at_period_end) BillingError.resume_not_scheduled
  set_cancel provider row false now
  gets (build_billing_status provider user_id now)
