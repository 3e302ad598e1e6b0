-- ===== src/Billing/Webhook/Process.antt =====
-- What the ledger says of an event after its handler ran.
use buyseekk.Prelude.{
  ℕ, ◌≡◌, ◌≢◌, refl, sym, ap, subst, inl, inr, true, false, Option, none, some, is_some, Text,
  arith, Bool-cases, Option-cases,
}
use buyseekk.Shared.TextOrder.{text_eq_refl}
use buyseekk.Shared.Keyed.{find_first, find_first-append_new}
use buyseekk.Shared.Effect.{Outcome, ok, err, pure, ◌>>◌}
use buyseekk.Billing.Store.{BillingEvent, Store, BillingError, Action, is_event, find_event}
use buyseekk.Billing.Claim.{
  ClaimResult, lease_active, new_event, processed_row, claim_billing_event,
  mark_billing_event_processed,
}
use buyseekk.Billing.Claim.Leases.{updated_self}
use buyseekk.Billing.Claim.Processed.{IsProcessed}
use buyseekk.Billing.Webhook.{
  Provider, StripeEvent, Times, HandleResult, dispatch_supported_event, process_event,
  is_supported_type,
}
use buyseekk.Billing.Claim.Outcomes.{claim_fresh, claim_processed, claim_busy, claim_stale}
use buyseekk.Billing.Webhook.Ledger.{dispatch-IsEventless}

abbrev pub IsUnprocessed : Option BillingEvent → Type 0
IsUnprocessed none = false ≡ true
IsUnprocessed (some e) = is_some e.processed_at ≡ false

-- A claim that was won, and one that was refused with no duplicate, leave a row that is not processed.
pub claim_open :
    (now : ℕ) (id : Text) (store : Store)
    → (claim_billing_event now id store).0 ≢ ClaimResult.duplicate
    → IsUnprocessed (find_event id (claim_billing_event now id store).1)
claim_open now id store h = elim (Option-cases (find_event id store)) [
  | inl e ↦
      rw
        (
          claim_fresh now id store e,
          find_first-append_new (is_event id) (new_event now id) store.events e (text_eq_refl id),
        )
        refl
  | inr (row, e) ↦ elim (Bool-cases (is_some row.processed_at)) [
    | inl p ↦ absurd (h (ap (λ (x : ClaimResult × Store). x.0) (claim_processed now id store e p)))
    | inr p ↦ elim (Bool-cases (lease_active now row.processing_started_at)) [
      | inl a ↦ rw (claim_busy now id store e p a, e) p
      | inr a ↦ rw (claim_stale now id store e p a).1 p
    ]
  ]
]

-- The mark at the end of a handler that went through.
module _ (at : ℕ) (id : Text) (result : HandleResult) where
  abbrev marked : Action HandleResult
  marked = mark_billing_event_processed at id >> pure result

  mark-eq-ok :
      (store : Store) {r : HandleResult}
      → (marked store).0 ≡ ok r
      → IsProcessed (find_event id (marked store).1)
  unfolding mark_billing_event_processed
  mark-eq-ok store h = elim (Option-cases (find_event id store)) [
    | inl e ↦ ground arith
    | inr (row, e) ↦ ground (arith, updated_self id (processed_row at) store (λ e. refl))
  ]

  mark_missing :
      (store : Store) {w : BillingError} → (marked store).0 ≡ err w → find_event id store ≡ none
  unfolding mark_billing_event_processed
  mark_missing store h = ground arith

  mark-ne-err :
      (store : Store) {w : BillingError}
      → (marked store).0 ≡ err w
      → IsUnprocessed (find_event id store)
      → false ≡ true
  mark-ne-err store h u = subst IsUnprocessed (mark_missing store h) u

module _ (provider : Provider) (times : Times) (event : StripeEvent) (store : Store) where
  abbrev pub row_after : Store → Option BillingEvent
  row_after store' = find_event event.id store'

  -- What follows the dispatch, which left the ledger alone.
  abbrev finished :
      Outcome BillingError (Unit {0}) → Store → Outcome BillingError HandleResult × Store
  finished o store' = elim o [
    | ok _ ↦ marked times.processed_at event.id HandleResult.received store'
    | err e ↦ (err e, store')
  ]

  finished-eq-ok :
      (o : Outcome BillingError (Unit {0})) (store' : Store) {r : HandleResult}
      → (finished o store').0 ≡ ok r
      → IsProcessed (row_after (finished o store').1)
  finished-eq-ok (ok _) store' h =
      mark-eq-ok times.processed_at event.id HandleResult.received store' h
  finished-eq-ok (err e) store' h = absurd (cc h)

  finished-eq-err :
      (o : Outcome BillingError (Unit {0})) (store' : Store) {w : BillingError}
      → (finished o store').0 ≡ err w
      → IsUnprocessed (row_after store')
      → IsUnprocessed (row_after (finished o store').1)
  finished-eq-err (ok _) store' h u =
      absurd (cc (mark-ne-err times.processed_at event.id HandleResult.received store' h u))
  finished-eq-err (err e) store' h u = u

  process_supported :
      is_supported_type event.object ≡ true
      → process_event provider times event store ≡ (
          let (o, store') = dispatch_supported_event provider times event store in
          finished o store')
  unfolding process_event
  process_supported e = rw (e, process_event)

  process_unsupported :
      is_supported_type event.object ≡ false
      → process_event provider times event store
        ≡ marked times.processed_at event.id HandleResult.ignored_unsupported store
  unfolding process_event
  process_unsupported e = rw (e, process_event)

  abbrev Outcomes : Type 0
  Outcomes = Outcome BillingError HandleResult × Store

  pub process-eq-ok :
      {r : HandleResult}
      → (process_event provider times event store).0 ≡ ok r
      → IsProcessed (row_after (process_event provider times event store).1)
  process-eq-ok {r} =
      let P = λ (x : Outcomes). x.0 ≡ ok r → IsProcessed (row_after x.1) in
      elim (Bool-cases (is_supported_type event.object)) [
        | inl e ↦
            let (o, store') = dispatch_supported_event provider times event store in
            subst P (sym (process_supported e)) (finished-eq-ok o store' {r = r})
        | inr e ↦
            subst P (sym (process_unsupported e)) (
              mark-eq-ok times.processed_at event.id HandleResult.ignored_unsupported store {r = r})
      ]

  pub process-eq-err :
      {w : BillingError}
      → (process_event provider times event store).0 ≡ err w
      → IsUnprocessed (row_after store)
      → IsUnprocessed (row_after (process_event provider times event store).1)
  process-eq-err {w} h u =
      let P = λ (x : Outcomes). x.0 ≡ err w → IsUnprocessed (row_after x.1) in
      elim (Bool-cases (is_supported_type event.object)) [
        | inl e ↦
            let (o, store') = dispatch_supported_event provider times event store in
            let same = dispatch-IsEventless provider times event store in
            subst P (sym (process_supported e))
              (λ k.
                finished-eq-err o store' k
                  (subst (λ es. IsUnprocessed (find_first (is_event event.id) es)) (sym same) u))
              h
        | inr e ↦
            subst P (sym (process_unsupported e))
              (λ k. absurd (
                cc (
                  mark-ne-err times.processed_at event.id HandleResult.ignored_unsupported store k
                    u)))
              h
      ]
