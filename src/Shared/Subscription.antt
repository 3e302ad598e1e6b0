-- ===== src/Shared/Subscription.antt =====
-- The entitlement rules of packages/shared/src/subscription.ts. A period end is a valid Date or
-- absent, as the database gives it; the string form that `coerceDate` also takes is left out.
pub mod Laws
use buyseekk.Prelude.{ℕ, Bool, true, false, Option, none, some, List, ltb, some_of, if◌then◌else◌}

pub data SubscriptionPlan : Type 0 where
  free plus enterprise : SubscriptionPlan

pub data SubscriptionStatus : Type 0 where
  active trialing past_due canceled unpaid incomplete expired : SubscriptionStatus

pub record SubscriptionEntitlementInput : Type 0 where
  pub status : SubscriptionStatus
  pub current_period_end : Option ℕ

abbrev pub ends_after : Option ℕ → ℕ → Bool
ends_after none now = false
ends_after (some end) now = ltb now end

abbrev grants : SubscriptionStatus → Bool → Bool
grants SubscriptionStatus.active _ = true
grants SubscriptionStatus.trialing _ = true
grants SubscriptionStatus.past_due _ = true
grants SubscriptionStatus.canceled later = later
grants _ _ = false

unfoldable pub subscription_grants_plus : SubscriptionEntitlementInput → ℕ → Bool
subscription_grants_plus s now = grants s.status (ends_after s.current_period_end now)

unfoldable pub any_subscription_grants_plus : List SubscriptionEntitlementInput → ℕ → Bool
any_subscription_grants_plus subscriptions now =
    some_of (λ s. subscription_grants_plus s now) subscriptions

unfoldable pub plan_from_plus_entitlement : Bool → SubscriptionPlan
plan_from_plus_entitlement has_plus =
    if has_plus then SubscriptionPlan.plus else SubscriptionPlan.free

unfoldable pub resolve_plus_entitlement : Bool → List SubscriptionEntitlementInput → ℕ → Bool
unfolding any_subscription_grants_plus
resolve_plus_entitlement unlocked subscriptions now =
    if unlocked then true else any_subscription_grants_plus subscriptions now
