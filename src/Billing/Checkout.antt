-- ===== src/Billing/Checkout.antt =====
-- The checkout of apps/api/src/billing/billing.service.ts: the user's Stripe customer, and one open
-- attempt per user. A row's id is its position in the table. What the provider answers is a parameter: by the idempotency
-- key of the user or of the attempt, so the same call has the same answer.
pub mod Current
pub mod Reuse
use buyseekk.Prelude.{
  ℕ, suc, ◌+◌, ◌*◌, Bool, true, false, not, Option, none, some, is_some, is_none, List, [], ◌∷◌,
  ◌++◌, ◌==◌, ◌&&◌, ◌||◌, ltb, leb, length, get_elem?, modify, update_where, some_of, is_empty,
  Text, text_eq, if◌then◌else◌,
}
use buyseekk.Shared.Effect.{
  Outcome, ok, err, pure, raise, gets, or_raise, raise_if, write, ◌>>=◌, ◌>>◌,
}
use buyseekk.Shared.Keyed.{find_first, best_from}
use buyseekk.Billing.Store.{
  BillingCheckoutStatus, BillingCustomer, BillingCheckoutSession, Store, BillingError, Action,
  find_customer,
}
use buyseekk.Billing.Sync.{has_plus}

-- BILLING_CHECKOUT_TTL_MS of billing.config.ts
abbrev pub billing_checkout_ttl_ms : ℕ
billing_checkout_ttl_ms = 23 * 60 * 60 * 1000

pub record ProviderSession : Type 0 where
  pub id : Text
  pub url : Text
  pub expires_at_unix : Option ℕ

-- The calls of the provider, and the configuration that the checkout needs.
pub record CheckoutProvider : Type 0 where
  pub create_customer : (user_id : ℕ) → Outcome BillingError Text
  pub create_checkout_session :
      (customer_id : Text) → (user_id attempt_id : ℕ) → Outcome BillingError ProviderSession
  pub billing_enabled : Bool
  pub plus_features_unlocked : Bool
  pub configured : Bool

abbrev find_customer_of : ℕ → Store → Option BillingCustomer
find_customer_of user_id store = find_first (λ c. c.user_id == user_id) store.customers

-- `billingCustomer.create`; a remote customer that another user has breaks the second unique index,
-- and no row of the user is there to fall back on.
abbrev create_customer_row : ℕ → Text → Action Text
create_customer_row user_id customer_id store =
    if is_some (find_customer customer_id store)
    then (err BillingError.unique_violation, store)
    else (
      ok customer_id,
      record store {
        customers =
            store.customers
            ++ record { user_id = user_id; provider_customer_id = customer_id } ∷ [];
      },
    )

unfoldable pub get_or_create_stripe_customer : CheckoutProvider → ℕ → Action Text
get_or_create_stripe_customer provider user_id store = elim (find_customer_of user_id store) [
  | some c ↦ (ok c.provider_customer_id, store)
  | none ↦ elim (provider.create_customer user_id) [
    | err e ↦ (err e, store)
    | ok customer_id ↦ create_customer_row user_id customer_id store
  ]
]

abbrev pub is_open_status : BillingCheckoutStatus → Bool
is_open_status BillingCheckoutStatus.open_session = true
is_open_status _ = false

-- The user's open attempts, whether they have expired or not.
abbrev pub is_open_of : ℕ → BillingCheckoutSession → Bool
is_open_of user_id s = s.user_id == user_id && is_open_status s.status

abbrev pub is_live : ℕ → ℕ → BillingCheckoutSession → Bool
is_live user_id now s = is_open_of user_id s && ltb now s.expires_at

abbrev pub is_stale_open : ℕ → ℕ → BillingCheckoutSession → Bool
is_stale_open user_id now s = is_open_of user_id s && leb s.expires_at now

abbrev pub expire : BillingCheckoutSession → BillingCheckoutSession
expire s = record s { status = BillingCheckoutStatus.expired }

unfoldable pub expire_stale_open_checkouts : ℕ → ℕ → Store → Store
expire_stale_open_checkouts user_id now store = record store {
  checkouts = update_where (is_stale_open user_id now) expire store.checkouts;
}

abbrev pub is_newer : BillingCheckoutSession → BillingCheckoutSession → Bool
is_newer a b = ltb b.created_at a.created_at

unfoldable pub find_open_checkout : ℕ → ℕ → Store → Option (ℕ × BillingCheckoutSession)
find_open_checkout user_id now store = best_from is_newer (is_live user_id now) 0 store.checkouts

-- `!!text`
abbrev pub is_given : Option Text → Bool
is_given none = false
is_given (some t) = not (is_empty t)

unfoldable pub is_complete_open_checkout : BillingCheckoutSession → Bool
is_complete_open_checkout s = is_given s.checkout_url && is_given s.provider_session_id

abbrev pub new_attempt : ℕ → ℕ → BillingCheckoutSession
new_attempt user_id now = record {
  user_id = user_id;
  provider_session_id = none;
  checkout_url = none;
  status = BillingCheckoutStatus.open_session;
  expires_at = now + billing_checkout_ttl_ms;
  created_at = now;
}

-- `create`, which the index on open attempts refuses where the user has one; then that one is used.
unfoldable pub claim_open_checkout_row : ℕ → ℕ → Action (ℕ × BillingCheckoutSession)
unfolding find_open_checkout
claim_open_checkout_row user_id now store =
    if some_of (is_open_of user_id) store.checkouts
    then or_raise (find_open_checkout user_id now store) BillingError.unique_violation store
    else (
      ok (length store.checkouts, new_attempt user_id now),
      record store { checkouts = store.checkouts ++ new_attempt user_id now ∷ [] },
    )

abbrev cancel_incomplete : BillingCheckoutSession → BillingCheckoutSession
cancel_incomplete s = record s {
  status =
      if is_open_status s.status && is_none s.provider_session_id
      then BillingCheckoutStatus.canceled
      else s.status;
}

-- Stripe's own end of the session where it gives one.
abbrev pub attach : ℕ → ProviderSession → BillingCheckoutSession → BillingCheckoutSession
attach now session s = record s {
  provider_session_id = some session.id;
  checkout_url = some session.url;
  expires_at = elim session.expires_at_unix [
    | some unix ↦ unix * 1000
    | none ↦ now + billing_checkout_ttl_ms
  ];
  status = BillingCheckoutStatus.open_session;
}

abbrev is_definitive : BillingError → Bool
is_definitive (BillingError.provider_error d) = d
is_definitive _ = false

abbrev pub set_checkout : ℕ → (BillingCheckoutSession → BillingCheckoutSession) → Store → Store
set_checkout id f store = record store { checkouts = modify store.checkouts id f }

unfoldable pub attach_stripe_checkout_to_attempt :
    CheckoutProvider → ℕ × BillingCheckoutSession → Text → ℕ → ℕ → Action BillingCheckoutSession
attach_stripe_checkout_to_attempt provider (id, row) customer_id user_id now store =
    if not provider.configured
    then (err BillingError.misconfigured, store)
    else elim (provider.create_checkout_session customer_id user_id id) [
      | ok session ↦ (ok (attach now session row), set_checkout id (attach now session) store)
      | err e ↦
          if is_definitive e
          then (err BillingError.checkout_provider_failed, set_checkout id cancel_incomplete store)
          else (err e, store)
    ]

-- A complete attempt is returned; an incomplete one gets its session.
abbrev pub complete_or_attach :
    CheckoutProvider → Text → ℕ → ℕ → ℕ × BillingCheckoutSession → Action BillingCheckoutSession
complete_or_attach provider customer_id user_id now (id, row) =
    if is_complete_open_checkout row
    then pure row
    else attach_stripe_checkout_to_attempt provider (id, row) customer_id user_id now

unfoldable pub get_or_create_open_checkout_session :
    CheckoutProvider → ℕ → Text → ℕ → Action BillingCheckoutSession
unfolding expire_stale_open_checkouts find_open_checkout is_complete_open_checkout
    claim_open_checkout_row attach_stripe_checkout_to_attempt
get_or_create_open_checkout_session provider user_id customer_id now store =
    let store1 = expire_stale_open_checkouts user_id now store in
    elim (find_open_checkout user_id now store1) [
      | some found ↦ complete_or_attach provider customer_id user_id now found store1
      | none ↦
          (claim_open_checkout_row user_id now
              >>= complete_or_attach provider customer_id user_id now)
            store1
    ]

-- The open attempt that the user is sent to.
unfoldable pub create_plus_checkout_session :
    CheckoutProvider → ℕ → ℕ → Action BillingCheckoutSession
unfolding get_or_create_stripe_customer get_or_create_open_checkout_session
create_plus_checkout_session provider user_id now = do
  raise_if (not provider.billing_enabled) BillingError.billing_unavailable
  user ← gets (λ store. get_elem? store.plans user_id)
  raise_if (is_none user) BillingError.user_not_found
  plus ← gets (λ store. provider.plus_features_unlocked || has_plus user_id now store)
  raise_if plus BillingError.already_plus
  customer_id ← get_or_create_stripe_customer provider user_id
  get_or_create_open_checkout_session provider user_id customer_id now
