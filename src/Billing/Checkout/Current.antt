-- ===== src/Billing/Checkout/Current.antt =====
-- One open attempt per user: the one that a checkout returns.
use buyseekk.Prelude.{
  ℕ, ◌≤◌, ◌≡◌, subst, refl, inl, inr, true, false, none, some, [], ◌∷◌, get_elem?,
  get_elem?-append_new, get_elem?-modify_self, count_where, count_where-append, count_where-modify,
  some_of, Text, arith, Bool-cases, ==_refl,
}
use buyseekk.Shared.Effect.{Outcome, ok, err}
use buyseekk.Shared.Keyed.Counting.{count_where-some_of, count_where-update_le}
use buyseekk.Billing.Store.{BillingCheckoutSession, Store, BillingError}
use buyseekk.Billing.Checkout.{
  CheckoutProvider, ProviderSession, is_open_of, is_stale_open, expire, expire_stale_open_checkouts,
  find_open_checkout, is_complete_open_checkout, new_attempt, claim_open_checkout_row, attach,
  attach_stripe_checkout_to_attempt, complete_or_attach, set_checkout,
}

-- The user's open attempts: at most one, by the partial unique index.
abbrev pub open_attempts : ℕ → Store → ℕ
open_attempts user_id store = count_where (is_open_of user_id) store.checkouts

-- The user's only open attempt.
pub record IsCurrent (user_id : ℕ) (row : BillingCheckoutSession) (store : Store) : Type 0 where
  pub id : ℕ
  pub stored : get_elem? store.checkouts id ≡ some row
  pub is_open : is_open_of user_id row ≡ true
  pub only : open_attempts user_id store ≤ 1

pub expire-only :
    (user_id now : ℕ) (store : Store)
    → open_attempts user_id store ≤ 1
    → open_attempts user_id (expire_stale_open_checkouts user_id now store) ≤ 1
unfolding expire_stale_open_checkouts
expire-only user_id now store h = omega (
  arith,
  count_where-update_le (is_open_of user_id) (is_stale_open user_id now) expire (λ a. ground arith)
      store.checkouts,
)

set-IsCurrent :
    (user_id now id : ℕ) (session : ProviderSession) (store : Store) {row : BillingCheckoutSession}
    → get_elem? store.checkouts id ≡ some row
    → is_open_of user_id row ≡ true
    → open_attempts user_id store ≤ 1
    → IsCurrent user_id (attach now session row) (set_checkout id (attach now session) store)
set-IsCurrent user_id now id session store {row} stored is_open only =
    let opened : is_open_of user_id (attach now session row) ≡ true = ground arith in
    record {
      id = id;
      stored = get_elem?-modify_self store.checkouts id (attach now session) stored;
      is_open = opened;
      only = ground (
        arith,
        opened,
        count_where-modify (is_open_of user_id) store.checkouts id (attach now session) stored,
      );
    }

module _ (provider : CheckoutProvider) (user_id : ℕ) (customer_id : Text) (now : ℕ)
    (store : Store) where
  abbrev Outcomes : Type 0
  Outcomes = Outcome BillingError BillingCheckoutSession × Store

  attach-eq-ok :
      (id : ℕ) (row : BillingCheckoutSession) {result : BillingCheckoutSession}
      → let out =
          attach_stripe_checkout_to_attempt provider (id, row) customer_id user_id now store in
        out.0 ≡ ok result
        → (session : ProviderSession) × (out
            ≡ (ok (attach now session row), set_checkout id (attach now session) store))
  unfolding attach_stripe_checkout_to_attempt
  attach-eq-ok id row h = answered (provider.create_checkout_session customer_id user_id id) refl
    where
      answered :
          (o : Outcome BillingError ProviderSession)
          → provider.create_checkout_session customer_id user_id id ≡ o
          → (session : ProviderSession) × (attach_stripe_checkout_to_attempt provider
                (id, row)
                customer_id
                user_id
                now
                store
              ≡ (ok (attach now session row), set_checkout id (attach now session) store))
      answered (ok session) e = (session, ground arith)
      answered (err w) e = absurd (cc (failed w e))
        where
          failed :
              (w : BillingError)
              → provider.create_checkout_session customer_id user_id id ≡ err w
              → false ≡ true
          failed w e = ground arith

  -- An attempt that is returned as it is, or with the session that Stripe made.
  pub complete_or_attach-IsCurrent :
      (id : ℕ) (row : BillingCheckoutSession) {result : BillingCheckoutSession}
      → get_elem? store.checkouts id ≡ some row
      → is_open_of user_id row ≡ true
      → open_attempts user_id store ≤ 1
      → (complete_or_attach provider customer_id user_id now (id, row) store).0 ≡ ok result
      → IsCurrent user_id result
          (complete_or_attach provider customer_id user_id now (id, row) store).1
  complete_or_attach-IsCurrent id row {result} stored is_open only =
      elim (Bool-cases (is_complete_open_checkout row)) [
        | inl e ↦ rw e (λ h.
            let same : row ≡ result = cc in
            subst (λ r. IsCurrent user_id r store) same
              (record { id = id; stored = stored; is_open = is_open; only = only }))
        | inr e ↦ rw e (λ h.
            let (session, out) = attach-eq-ok id row h in
            let same : attach now session row ≡ result = cc in
            rw (out, ← same) (set-IsCurrent user_id now id session store stored is_open only))
      ]

  pub claim_row :
      {id : ℕ} {row : BillingCheckoutSession}
      → open_attempts user_id store ≤ 1
      → find_open_checkout user_id now store ≡ none
      → (claim_open_checkout_row user_id now store).0 ≡ ok (id, row)
      → (get_elem? (claim_open_checkout_row user_id now store).1.checkouts id ≡ some row)
        × (is_open_of user_id row ≡ true)
        × (open_attempts user_id (claim_open_checkout_row user_id now store).1 ≤ 1)
  unfolding claim_open_checkout_row
  claim_row {id} {row} only missing h =
      elim (Bool-cases (some_of (is_open_of user_id) store.checkouts)) [
        | inl e ↦ absurd (cc (taken e))
        | inr e ↦ ground (
          arith,
          get_elem?-append_new store.checkouts (new_attempt user_id now),
          count_where-append (is_open_of user_id) store.checkouts (new_attempt user_id now ∷ []),
          count_where-some_of (is_open_of user_id) store.checkouts e,
          ==_refl user_id,
        )
      ]
    where
      taken : some_of (is_open_of user_id) store.checkouts ≡ true → false ≡ true
      taken e = ground arith
