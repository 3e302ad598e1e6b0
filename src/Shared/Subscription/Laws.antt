-- ===== src/Shared/Subscription/Laws.antt =====
-- When a subscription gives Plus, and for how long.
use buyseekk.Prelude.{ℕ, ◌<◌, ◌≡◌, ◌↔◌, ◌⊎◌, true, some, arith}
use buyseekk.Shared.Subscription.{
  SubscriptionStatus, SubscriptionEntitlementInput, subscription_grants_plus,
}

-- A subscription gives Plus exactly if it is active, in trial or past due, or is canceled with a
-- period end that is still to come.
pub subscription_grants_plus_iff :
    (s : SubscriptionEntitlementInput) (now : ℕ)
    → (subscription_grants_plus s now ≡ true) ↔ (
        (s.status ≡ SubscriptionStatus.active)
        ⊎ (s.status ≡ SubscriptionStatus.trialing)
        ⊎ (s.status ≡ SubscriptionStatus.past_due)
        ⊎ ((s.status ≡ SubscriptionStatus.canceled)
            × ((end : ℕ) × (s.current_period_end ≡ some end) × (now < end))))
unfolding subscription_grants_plus
subscription_grants_plus_iff s now = ground arith
