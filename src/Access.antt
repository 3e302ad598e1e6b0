-- ===== src/Access.antt =====
-- The checks of apps/api/src/common/utils on the account that acts and on what it sends.
pub mod Entitlement
use buyseekk.Prelude.{
  ℕ, ◌+◌, ◌-◌, ◌*◌, ◌%◌, ◌≤◌, Bool, true, false, Option, none, some, List, [], ◌∷◌, ◌++◌, ◌==◌,
  ◌&&◌, ◌||◌, not, leb, ltb, length, count_where, some_of, select, map, Text, text_eq, is_empty,
  trim, if◌then◌else◌,
}
use buyseekk.Shared.Limits.{
  max_images_per_entity, max_offers_per_hour, spam_duplicate_days, free_daily_offer_limit,
  free_max_smart_alerts, hour_ms, day_ms,
}
use buyseekk.Shared.UserMode.{UserRole}
use buyseekk.Shared.Money.{Currency, is_valid_money_amount}
use buyseekk.Shared.Subscription.{
  SubscriptionStatus, SubscriptionPlan, SubscriptionEntitlementInput, resolve_plus_entitlement,
  any_subscription_grants_plus, plan_from_plus_entitlement,
}
use buyseekk.Db.Schema.{User, Request, Offer, Subscription, Db}
use buyseekk.Db.Errors.{Error}
use buyseekk.Db.Tables.{some_other}
use buyseekk.Db.Action.{Action, pure, raise, gets, raise_if, ◌>>=◌, ◌>>◌, choose}

-- What the services take from outside the modelled code: the spam patterns and the fingerprint of
-- content-policy.ts, which are regular expressions over Unicode classes, the URL tests of
-- image-urls.ts and storage-keys.ts, and the setting PLUS_FEATURES_UNLOCKED.
pub record Env : Type 0 where
  pub has_spam_issue : Text → Bool
  pub content_fingerprint : Text → Text
  pub url_well_formed : Text → Bool
  pub url_attachable : Text → ℕ → Bool
  pub plus_features_unlocked : Bool

-- assert-not-blocked.ts
unfoldable pub assert_account_active : User → Action (Unit {0})
assert_account_active user = do
  raise_if user.blocked Error.account_blocked
  raise_if user.suspended Error.account_suspended

-- assert-email-verified.ts
unfoldable pub assert_email_verified : User → Action (Unit {0})
assert_email_verified user = raise_if (not user.email_verified) Error.email_not_verified

abbrev pub is_admin : UserRole → Bool
is_admin UserRole.admin = true
is_admin _ = false

-- assert-not-admin.ts
unfoldable pub assert_not_admin_for_marketplace_actions : User → Action (Unit {0})
assert_not_admin_for_marketplace_actions user =
    raise_if (is_admin user.profile.role) Error.admin_no_marketplace

-- image-urls.ts: `assertValidImageUrls` and then `assertOwnedImageUrls`.
unfoldable pub assert_image_urls : Env → List Text → ℕ → Action (Unit {0})
assert_image_urls env urls user_id = do
  raise_if (length urls == 0) Error.no_images
  raise_if (ltb max_images_per_entity (length urls)) Error.too_many_images
  raise_if (some_of (λ url. not (env.url_well_formed url)) urls) Error.image_rejected
  raise_if (some_of (λ url. not (env.url_attachable url user_id)) urls) Error.image_rejected

-- A URL that is neither the request's already nor one of the user's own images.
abbrev is_foreign_url : Env → ℕ → List Text → Text → Bool
is_foreign_url env user_id existing url =
    not (some_of (λ old. text_eq old url) existing) && not (env.url_attachable url user_id)

-- image-urls.ts: `validateImageUrls` and then `assertOwnedImageUrls` with the images that the request
-- has already; both let no image through too.
unfoldable pub validate_image_urls : Env → List Text → ℕ → List Text → Action (Unit {0})
validate_image_urls env urls user_id existing = do
  raise_if (ltb max_images_per_entity (length urls)) Error.too_many_images
  raise_if (some_of (λ url. not (env.url_well_formed url)) urls) Error.image_rejected
  raise_if (some_of (is_foreign_url env user_id existing) urls) Error.image_rejected

-- A recent or active request of the user with the same requirements or the same title.
unfoldable pub is_similar_request : Env → ℕ → ℕ → Text → Option Text → Request → Bool
is_similar_request env now user_id requirements title r =
    r.user_id == user_id
    && (r.active || leb (now - spam_duplicate_days * day_ms) r.created_at)
    && (text_eq (env.content_fingerprint r.terms.requirements)
          (env.content_fingerprint requirements)
        || elim title [
          | none ↦ false
          | some t ↦
              not (is_empty (trim t))
              && text_eq (env.content_fingerprint r.terms.title) (env.content_fingerprint t)
        ])

-- spam-content.ts; a request that is edited is not compared with itself.
unfoldable pub assert_no_duplicate_request :
    Env → ℕ → ℕ → Text → Option Text → Option ℕ → Action (Unit {0})
unfolding is_similar_request
assert_no_duplicate_request env now user_id requirements title exclude_id = do
  requests ← gets (λ db. db.requests)
  let is_similar = is_similar_request env now user_id requirements title
  raise_if
      (elim exclude_id [
        | none ↦ some_of is_similar requests
        | some id ↦ some_other id is_similar 0 requests
      ])
      Error.duplicate_request

-- spam-content.ts
unfoldable pub assert_clean_public_text : Env → Text → Action (Unit {0})
assert_clean_public_text env text =
    raise_if (not (is_empty (trim text)) && env.has_spam_issue text) Error.spam_content

-- money-limits.ts
unfoldable pub assert_valid_money_amount : ℕ → Currency → Bool → Action (Unit {0})
assert_valid_money_amount amount currency is_rent =
    raise_if (not (is_valid_money_amount amount currency is_rent)) Error.invalid_amount

-- The offers of a seller from a time on.
unfoldable pub offers_since : ℕ → ℕ → Offer → Bool
offers_since seller_id since o = o.seller_id == seller_id && leb since o.created_at

-- spam-content.ts; an hour and seven days of local time, in a zone with no change of its clock.
unfoldable pub assert_offer_spam_limits : Env → ℕ → ℕ → Text → Action (Unit {0})
assert_offer_spam_limits env now seller_id message = do
  offers ← gets (λ db. db.offers)
  let offers_last_hour = count_where (offers_since seller_id (now - hour_ms)) offers
  raise_if (leb max_offers_per_hour offers_last_hour) Error.hourly_limit
  let msg_fp = env.content_fingerprint message
  let recent = select (offers_since seller_id (now - spam_duplicate_days * day_ms)) offers
  raise_if (some_of (λ o. text_eq (env.content_fingerprint o.terms.message) msg_fp) recent)
      Error.duplicate_message

abbrev pub is_candidate : SubscriptionStatus → Bool
is_candidate SubscriptionStatus.active = true
is_candidate SubscriptionStatus.trialing = true
is_candidate SubscriptionStatus.past_due = true
is_candidate SubscriptionStatus.canceled = true
is_candidate _ = false

-- The query of `hasPlusEntitlement`: the user's rows in a candidate status.
unfoldable pub entitlement_rows : ℕ → Db → List SubscriptionEntitlementInput
entitlement_rows user_id db =
    map (λ s. s.entitlement)
      (select (λ s. s.user_id == user_id && is_candidate s.entitlement.status) db.subscriptions)

-- subscription.service.ts
unfoldable pub has_plus_entitlement : Env → ℕ → ℕ → Db → Bool
unfolding entitlement_rows
has_plus_entitlement env user_id now db =
    if env.plus_features_unlocked
    then true
    else resolve_plus_entitlement false (entitlement_rows user_id db) now

unfoldable pub start_of_utc_day : ℕ → ℕ
start_of_utc_day now = now - now % day_ms

unfoldable pub assert_daily_offer_limit : Env → ℕ → ℕ → Action (Unit {0})
unfolding has_plus_entitlement start_of_utc_day
assert_daily_offer_limit env now seller_id = do
  plus ← gets (has_plus_entitlement env seller_id now)
  count ← gets (λ db. count_where (offers_since seller_id (start_of_utc_day now)) db.offers)
  raise_if (not plus && leb free_daily_offer_limit count) Error.daily_limit
