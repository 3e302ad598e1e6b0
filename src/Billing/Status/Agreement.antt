-- ===== src/Billing/Status/Agreement.antt =====
-- The buttons that the plan page shows against what the API accepts.
use buyseekk.Prelude.{
  ℕ, ◌≡◌, refl, sym, ap, ◌∙◌, inl, inr, Bool, true, false, Option, none, some, Text, arith,
  Option-cases, ◌&&◌, Bool-cases,
}
use buyseekk.Shared.Effect.{Outcome, ok, err}
use buyseekk.Billing.Store.{SubscriptionRow, Store, BillingError}
use buyseekk.Shared.Keyed.{best_from}
use buyseekk.Shared.Keyed.Counting.{best_from-eq-some}
use buyseekk.Billing.Status.{
  is_fresher, is_manageable, StatusProvider, find_primary_stripe_subscription, build_billing_status,
  require_manageable_stripe_subscription, set_cancel, sync_management_snapshot,
  schedule_cancel_at_period_end, resume_subscription,
}

-- Did the call go through?
abbrev pub succeeds : {A : Type 0} → Outcome BillingError A → Bool
succeeds (ok _) = true
succeeds (err _) = false

primary_fits :
    (user_id : ℕ) (store : Store) {row : SubscriptionRow}
    → find_primary_stripe_subscription user_id store ≡ some row
    → is_manageable user_id row ≡ true
unfolding find_primary_stripe_subscription
primary_fits user_id store {row} h =
    found (best_from is_fresher (is_manageable user_id) 0 store.subscriptions) refl
  where
    found :
        (o : Option (ℕ × SubscriptionRow))
        → best_from is_fresher (is_manageable user_id) 0 store.subscriptions ≡ o
        → is_manageable user_id row ≡ true
    found none e = absurd (cc (nothing e))
      where
        nothing :
            best_from is_fresher (is_manageable user_id) 0 store.subscriptions ≡ none → false ≡ true
        nothing e = ground arith
    found (some (j, r)) e =
        let (i, at, stored, fits) =
          best_from-eq-some is_fresher (is_manageable user_id) 0 store.subscriptions e in
        ground arith

module _ (provider : StatusProvider) (user_id now : ℕ) (store : Store)
    (enabled : provider.billing_enabled ≡ true)
    (answers : (id : Text) (cancel : Bool)
      → succeeds (provider.set_cancel_at_period_end id cancel) ≡ true) where
  set_cancel-succeeds :
      (row : SubscriptionRow) (cancel : Bool) → (set_cancel provider row cancel now store).0 ≡ ok tt
  unfolding set_cancel sync_management_snapshot
  set_cancel-succeeds row cancel = ground (arith, answers row.provider_subscription_id cancel)

  schedule_none :
      find_primary_stripe_subscription user_id store ≡ none
      → succeeds (schedule_cancel_at_period_end provider user_id now store).0
        ≡ (build_billing_status provider user_id now store).can_cancel_in_buyseek
  unfolding schedule_cancel_at_period_end build_billing_status
      require_manageable_stripe_subscription
  schedule_none e = ground arith

  schedule_some :
      (row : SubscriptionRow)
      → find_primary_stripe_subscription user_id store ≡ some row
      → succeeds (schedule_cancel_at_period_end provider user_id now store).0
        ≡ (build_billing_status provider user_id now store).can_cancel_in_buyseek
  unfolding schedule_cancel_at_period_end build_billing_status
      require_manageable_stripe_subscription
  schedule_some row e = ground (arith, primary_fits user_id store e, set_cancel-succeeds row true)

  schedule_while_enabled :
      succeeds (schedule_cancel_at_period_end provider user_id now store).0
      ≡ (build_billing_status provider user_id now store).can_cancel_in_buyseek
  schedule_while_enabled = elim (Option-cases (find_primary_stripe_subscription user_id store)) [
    | inl e ↦ schedule_none e
    | inr (row, e) ↦ schedule_some row e
  ]

  -- Where billing is on, Stripe answers and the page shows the button for undoing a cancellation, the API accepts that.
  pub resume_of_can_resume :
      (build_billing_status provider user_id now store).can_resume_in_buyseek ≡ true
      → succeeds (resume_subscription provider user_id now store).0 ≡ true
  unfolding resume_subscription build_billing_status require_manageable_stripe_subscription
  resume_of_can_resume h = elim (Option-cases (find_primary_stripe_subscription user_id store)) [
    | inl e ↦ ground arith
    | inr (row, e) ↦ ground (arith, primary_fits user_id store e, set_cancel-succeeds row false)
  ]

module _ (provider : StatusProvider) (user_id now : ℕ) (store : Store) where
  schedule_while_disabled :
      provider.billing_enabled ≡ false
      → succeeds (schedule_cancel_at_period_end provider user_id now store).0 ≡ false
  unfolding schedule_cancel_at_period_end
  schedule_while_disabled off = ground arith

  -- Where Stripe answers, the API accepts a cancellation exactly when STRIPE_BILLING_ENABLED is on and the plan page
  -- shows the button for it. While the setting is off every cancellation is refused, with the button or without it.
  pub schedule_iff_can_cancel :
      ((id : Text) (cancel : Bool) → succeeds (provider.set_cancel_at_period_end id cancel) ≡ true)
      → succeeds (schedule_cancel_at_period_end provider user_id now store).0 ≡ (
          provider.billing_enabled
          && (build_billing_status provider user_id now store).can_cancel_in_buyseek)
  schedule_iff_can_cancel answers = elim (Bool-cases provider.billing_enabled) [
    | inl on ↦
        schedule_while_enabled provider user_id now store on answers ∙ sym (ap (λ b. b && shown) on)
    | inr off ↦ schedule_while_disabled off ∙ sym (ap (λ b. b && shown) off)
  ]
    where
      shown : Bool
      shown = (build_billing_status provider user_id now store).can_cancel_in_buyseek
