-- ===== src/Billing/Webhook/Replay.antt =====
-- An event that is delivered again, after it was handled and after it failed.
use buyseekk.Prelude.{
  ℕ, ◌≡◌, ◌≢◌, refl, ap, subst, inl, inr, none, some, is_some, Text, arith, Bool-cases,
  Option-cases, if◌then◌else◌,
}
use buyseekk.Shared.Effect.{Outcome, ok, err}
use buyseekk.Billing.Store.{BillingEvent, Store, BillingError, find_event}
use buyseekk.Billing.Claim.{ClaimResult, lease_active, claim_billing_event}
use buyseekk.Billing.Claim.Processed.{IsProcessed}
use buyseekk.Billing.Webhook.{
  Provider, StripeEvent, Times, HandleResult, process_event, handle_event,
}
use buyseekk.Billing.Claim.Outcomes.{claim_fresh, claim_processed, claim_busy, claim_stale}
use buyseekk.Billing.Webhook.Process.{IsUnprocessed, claim_open, process-eq-ok, process-eq-err}

-- Who is given an event that has a row, by the row.
claim_row :
    (now : ℕ) (id : Text) (store : Store)
    → IsUnprocessed (find_event id store)
    → (row : BillingEvent) × (find_event id store ≡ some row)
      × (row.processed_at ≡ none)
      × ((claim_billing_event now id store).0 ≡ (
          if lease_active now row.processing_started_at
          then ClaimResult.in_progress
          else ClaimResult.claimed))
claim_row now id store u = elim (Option-cases (find_event id store)) [
  | inl e ↦ absurd (cc (subst IsUnprocessed e u))
  | inr (row, e) ↦
      let p = subst IsUnprocessed e u in
      (
        row,
        e,
        ground arith,
        elim (Bool-cases (lease_active now row.processing_started_at)) [
          | inl a ↦ rw (a, claim_busy now id store e p a)
          | inr a ↦ rw (a, (claim_stale now id store e p a).0)
        ],
      )
]

claim_again :
    (now : ℕ) (id : Text) (store : Store)
    → IsProcessed (find_event id store)
    → claim_billing_event now id store ≡ (ClaimResult.duplicate, store)
claim_again now id store p = elim (Option-cases (find_event id store)) [
  | inl e ↦ absurd (cc (subst IsProcessed e p))
  | inr (row, e) ↦ claim_processed now id store e (subst IsProcessed e p)
]

claim_duplicate :
    (now : ℕ) (id : Text) (store : Store)
    → (claim_billing_event now id store).0 ≡ ClaimResult.duplicate
    → IsProcessed (find_event id (claim_billing_event now id store).1)
claim_duplicate now id store h = elim (Option-cases (find_event id store)) [
  | inl e ↦ absurd (cc (h, claim_fresh now id store e))
  | inr (row, e) ↦ elim (Bool-cases (is_some row.processed_at)) [
    | inl p ↦ rw (claim_processed now id store e p, e) p
    | inr p ↦ elim (Bool-cases (lease_active now row.processing_started_at)) [
      | inl a ↦ absurd (cc (h, claim_busy now id store e p a))
      | inr a ↦ absurd (cc (h, (claim_stale now id store e p a).0))
    ]
  ]
]

module _ (provider : Provider) (times : Times) (event : StripeEvent) where
  -- `handle_event` once the claim has answered.
  abbrev handled : ClaimResult → Store → Outcome BillingError HandleResult × Store
  handled claim store = elim claim [
    | ClaimResult.duplicate ↦ (ok HandleResult.received_duplicate, store)
    | ClaimResult.in_progress ↦ (err BillingError.webhook_in_progress, store)
    | ClaimResult.claimed ↦ process_event provider times event store
  ]

  handled-eq-ok :
      (claim : ClaimResult) (store : Store) {r : HandleResult}
      → (claim ≡ ClaimResult.duplicate → IsProcessed (find_event event.id store))
      → (handled claim store).0 ≡ ok r
      → IsProcessed (find_event event.id (handled claim store).1)
  handled-eq-ok ClaimResult.duplicate store d h = d refl
  handled-eq-ok ClaimResult.in_progress store d h = absurd (cc h)
  handled-eq-ok ClaimResult.claimed store d h = process-eq-ok provider times event store h

  handled-eq-err :
      (claim : ClaimResult) (store : Store) {w : BillingError}
      → (claim ≢ ClaimResult.duplicate → IsUnprocessed (find_event event.id store))
      → (handled claim store).0 ≡ err w
      → IsUnprocessed (find_event event.id (handled claim store).1)
  handled-eq-err ClaimResult.duplicate store u h = absurd (cc h)
  handled-eq-err ClaimResult.in_progress store u h = u (λ e. cc e)
  handled-eq-err ClaimResult.claimed store u h =
      process-eq-err provider times event store h (u (λ e. cc e))

module _ (provider : Provider) (times : Times) (event : StripeEvent) (store : Store) where
  abbrev claim : ClaimResult × Store
  claim = claim_billing_event times.claimed_at event.id store

  -- An event that was handled is handled once: a later delivery of it, whenever it comes and whatever
  -- Stripe would answer then, is acknowledged as a duplicate and changes nothing.
  pub handle_event_again :
      {r : HandleResult} (provider' : Provider) (times' : Times)
      → (handle_event provider times event store).0 ≡ ok r
      → let store' = (handle_event provider times event store).1 in
        handle_event provider' times' event store' ≡ (ok HandleResult.received_duplicate, store')
  unfolding handle_event
  handle_event_again provider' times' h =
      let done =
        handled-eq-ok provider times event claim.0 claim.1
          (claim_duplicate times.claimed_at event.id store) h in
      ap (λ (x : ClaimResult × Store). handled provider' times' event x.0 x.1)
        (claim_again times'.claimed_at event.id (handle_event provider times event store).1 done)

  -- An event whose handler threw is not lost: it has a row that is not processed, and a claim is given
  -- the event at every time at which the lease of that row is over, and only then.
  pub handle_event_retried :
      {w : BillingError} (later : ℕ)
      → (handle_event provider times event store).0 ≡ err w
      → let store' = (handle_event provider times event store).1 in
        (row : BillingEvent) × (find_event event.id store' ≡ some row)
        × (row.processed_at ≡ none)
        × ((claim_billing_event later event.id store').0 ≡ (
            if lease_active later row.processing_started_at
            then ClaimResult.in_progress
            else ClaimResult.claimed))
  unfolding handle_event
  handle_event_retried later h =
      let store' = (handle_event provider times event store).1 in
      let open_row =
        handled-eq-err provider times event claim.0 claim.1
          (claim_open times.claimed_at event.id store) h in
      claim_row later event.id store' open_row
