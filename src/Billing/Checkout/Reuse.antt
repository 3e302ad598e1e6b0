-- ===== src/Billing/Checkout/Reuse.antt =====
-- A checkout that was started is taken up again.
use buyseekk.Prelude.{
  ℕ, ◌+◌, ◌≤◌, ◌<◌, ◌≡◌, refl, sym, ap, ◌∙◌, subst, inl, inr, true, none, some, count_where,
  count_where-pos, Text, arith, Option-cases,
}
use buyseekk.Shared.Effect.{Outcome, ok, err, ◌>>=◌}
use buyseekk.Shared.Keyed.{best_from}
use buyseekk.Shared.Keyed.Counting.{
  update_where-none, count_where_split, best_from_only, best_from-eq-some,
}
use buyseekk.Billing.Store.{BillingCheckoutSession, Store, BillingError}
use buyseekk.Billing.Checkout.{
  CheckoutProvider, is_open_of, is_live, is_stale_open, expire, is_newer,
  expire_stale_open_checkouts, find_open_checkout, is_complete_open_checkout,
  claim_open_checkout_row, complete_or_attach, get_or_create_open_checkout_session,
}
use buyseekk.Billing.Checkout.Current.{
  open_attempts, IsCurrent, expire-only, complete_or_attach-IsCurrent, claim_row,
}

abbrev Answer : Type 0
Answer = Outcome BillingError BillingCheckoutSession × Store

-- An open attempt is live or stale.
open_split :
    (user_id now : ℕ) (store : Store)
    → open_attempts user_id store
      ≡ count_where (is_live user_id now) store.checkouts
        + count_where (is_stale_open user_id now) store.checkouts
open_split user_id now store =
    count_where_split (is_open_of user_id) (is_live user_id now) (is_stale_open user_id now)
      (λ a. ground arith) store.checkouts

module _ (provider : CheckoutProvider) (user_id : ℕ) (customer_id : Text) (now : ℕ)
    (store : Store) where
  abbrev expired_store : Store
  expired_store = expire_stale_open_checkouts user_id now store

  step_found :
      {found : ℕ × BillingCheckoutSession}
      → find_open_checkout user_id now expired_store ≡ some found
      → get_or_create_open_checkout_session provider user_id customer_id now store
        ≡ complete_or_attach provider customer_id user_id now found expired_store
  unfolding get_or_create_open_checkout_session
  step_found e = rw (e, get_or_create_open_checkout_session)

  abbrev after_claim : Outcome BillingError (ℕ × BillingCheckoutSession) → Store → Answer
  after_claim o store' = elim o [
    | ok found ↦ complete_or_attach provider customer_id user_id now found store'
    | err e ↦ (err e, store')
  ]

  step_new :
      find_open_checkout user_id now expired_store ≡ none
      → get_or_create_open_checkout_session provider user_id customer_id now store
        ≡ (claim_open_checkout_row user_id now
              >>= complete_or_attach provider customer_id user_id now)
            expired_store
  unfolding get_or_create_open_checkout_session
  step_new e = rw (e, get_or_create_open_checkout_session)

  find_open_lem :
      (found : ℕ × BillingCheckoutSession)
      → find_open_checkout user_id now expired_store ≡ some found
      → best_from is_newer (is_live user_id now) 0 expired_store.checkouts ≡ some found
  unfolding find_open_checkout
  find_open_lem found e = e

  -- The attempt that is returned is the user's only open one.
  get_or_create-IsCurrent :
      {row : BillingCheckoutSession}
      → open_attempts user_id store ≤ 1
      → (get_or_create_open_checkout_session provider user_id customer_id now store).0 ≡ ok row
      → IsCurrent user_id row
          (get_or_create_open_checkout_session provider user_id customer_id now store).1
  get_or_create-IsCurrent {row} only h =
      let P = λ (x : Answer). x.0 ≡ ok row → IsCurrent user_id row x.1 in
      let fewer = expire-only user_id now store only in
      elim (Option-cases (find_open_checkout user_id now expired_store)) [
        | inl e ↦
            subst P (sym (step_new e))
              (claimed e fewer (claim_open_checkout_row user_id now expired_store).0 refl) h
        | inr (found, e) ↦
            subst P (sym (step_found e))
              (let (i, at, stored, live) =
                  best_from-eq-some is_newer (is_live user_id now) 0 expired_store.checkouts
                    (find_open_lem found e) in
                let same : found.0 ≡ i = omega arith in
                complete_or_attach-IsCurrent provider user_id customer_id now expired_store found.0
                  found.1 (rw same stored) (ground arith) fewer)
              h
      ]
    where
      claimed :
          find_open_checkout user_id now expired_store ≡ none
          → open_attempts user_id expired_store ≤ 1
          → (o : Outcome BillingError (ℕ × BillingCheckoutSession))
          → (claim_open_checkout_row user_id now expired_store).0 ≡ o
          → let out = after_claim o (claim_open_checkout_row user_id now expired_store).1 in
            out.0 ≡ ok row → IsCurrent user_id row out.1
      claimed none_open fewer (ok (id, new)) e =
          let (stored, is_open, only) =
            claim_row provider user_id customer_id now expired_store fewer none_open e in
          complete_or_attach-IsCurrent provider user_id customer_id now
            (claim_open_checkout_row user_id now expired_store).1 id new stored is_open only
      claimed none_open fewer (err w) e = λ h. absurd (cc h)

module _ (provider : CheckoutProvider) (user_id : ℕ) (customer_id : Text) (now : ℕ) (store : Store)
    {row : BillingCheckoutSession} (current : IsCurrent user_id row store)
    (live : now < row.expires_at) where
  is_live_row : is_live user_id now row ≡ true
  is_live_row = ground (arith, current.is_open)

  none_stale : count_where (is_stale_open user_id now) store.checkouts ≡ 0
  none_stale = omega (
    arith,
    open_split user_id now store,
    current.only,
    count_where-pos (is_live user_id now) store.checkouts current.id current.stored is_live_row,
  )

  expire_nothing : expire_stale_open_checkouts user_id now store ≡ store
  unfolding expire_stale_open_checkouts
  expire_nothing =
      ap (λ c. record store { checkouts = c })
        (update_where-none (is_stale_open user_id now) expire store.checkouts none_stale)

  find_current : find_open_checkout user_id now store ≡ some (current.id, row)
  unfolding find_open_checkout
  find_current =
      let at : 0 + current.id ≡ current.id = omega arith in
      best_from_only is_newer (is_live user_id now) 0 store.checkouts current.id
        (omega (arith, open_split user_id now store, current.only)) current.stored is_live_row
      ∙ ap (λ (i : ℕ). some (i, row)) at

  reuse_current :
      is_complete_open_checkout row ≡ true
      → get_or_create_open_checkout_session provider user_id customer_id now store ≡ (ok row, store)
  reuse_current done =
      step_found provider user_id customer_id now store
        (ap (find_open_checkout user_id now) expire_nothing ∙ find_current)
      ∙ ap (complete_or_attach provider customer_id user_id now (current.id, row)) expire_nothing
      ∙ rw done

-- A user who starts a checkout again, before the session that was returned expires and once it has its
-- address, gets the same session, and nothing is written: no second session is paid for. Whatever
-- Stripe would answer by then plays no part. The table held at most one open attempt of the user
-- before, as its index demands.
pub get_or_create_again :
    (provider provider' : CheckoutProvider) (user_id : ℕ) (customer_id customer_id' : Text)
    (now later : ℕ) (store : Store) {row : BillingCheckoutSession}
    → open_attempts user_id store ≤ 1
    → (get_or_create_open_checkout_session provider user_id customer_id now store).0 ≡ ok row
    → is_complete_open_checkout row ≡ true
    → later < row.expires_at
    → let store' = (get_or_create_open_checkout_session provider user_id customer_id now store).1 in
      (get_or_create_open_checkout_session provider' user_id customer_id' later store'
        ≡ (ok row, store'))
      × (open_attempts user_id store' ≤ 1)
get_or_create_again provider provider' user_id customer_id customer_id' now later store only h done
      live =
    let store' = (get_or_create_open_checkout_session provider user_id customer_id now store).1 in
    let current = get_or_create-IsCurrent provider user_id customer_id now store only h in
    (reuse_current provider' user_id customer_id' later store' current live done, current.only)
