-- ===== src/Access/Entitlement.antt =====
-- The query of `hasPlusEntitlement` against the rule for one subscription.
use buyseekk.Prelude.{
  ℕ, ◌≡◌, refl, inl, inr, Bool, false, List, [], ◌∷◌, ◌==◌, ◌&&◌, select, map, arith, Bool-cases,
}
use buyseekk.Shared.Subscription.{
  SubscriptionEntitlementInput, subscription_grants_plus, any_subscription_grants_plus,
  resolve_plus_entitlement,
}
use buyseekk.Db.Schema.{Subscription, Db}
use buyseekk.Access.{Env, is_candidate, entitlement_rows, has_plus_entitlement}

-- A subscription in another status grants nothing.
grants-is_candidate :
    (s : SubscriptionEntitlementInput) (now : ℕ)
    → is_candidate s.status ≡ false
    → subscription_grants_plus s now ≡ false
unfolding subscription_grants_plus
grants-is_candidate s now h = ground arith

granting_rows :
    (p : Subscription → Bool) (subscriptions : List Subscription) (now : ℕ)
    → any_subscription_grants_plus
        (map
          (λ s. s.entitlement)
          (select (λ s. p s && is_candidate s.entitlement.status) subscriptions))
        now
      ≡ any_subscription_grants_plus (map (λ s. s.entitlement) (select p subscriptions)) now
unfolding any_subscription_grants_plus
granting_rows p [] now = refl
granting_rows p (s ∷ subscriptions) now = elim (Bool-cases (is_candidate s.entitlement.status)) [
  | inl kept ↦ ground (arith, granting_rows p subscriptions now)
  | inr dropped ↦
      ground
        (arith, granting_rows p subscriptions now, grants-is_candidate s.entitlement now dropped)
]

-- The query by candidate status loses no entitlement: `hasPlusEntitlement` answers as the rule of the
-- shared package does on all subscriptions of the user, whatever their status.
pub has_plus_entitlement-all_rows :
    (env : Env) (user_id now : ℕ) (db : Db)
    → has_plus_entitlement env user_id now db
      ≡ resolve_plus_entitlement env.plus_features_unlocked
          (map (λ s. s.entitlement) (select (λ s. s.user_id == user_id) db.subscriptions))
          now
unfolding has_plus_entitlement entitlement_rows resolve_plus_entitlement
has_plus_entitlement-all_rows env user_id now db =
    ground (arith, granting_rows (λ s. s.user_id == user_id) db.subscriptions now)
