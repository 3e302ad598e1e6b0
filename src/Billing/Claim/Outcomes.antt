-- ===== src/Billing/Claim/Outcomes.antt =====
-- The result of a claim that runs alone, by what the ledger says of the event.
use buyseekk.Prelude.{ℕ, ◌≡◌, refl, true, false, none, some, [], ◌∷◌, ◌++◌, is_some, Text, arith}
use buyseekk.Billing.Store.{BillingEvent, Store, find_event}
use buyseekk.Billing.Claim.{
  ClaimResult, lease_active, new_event, reclaim_row, claim_billing_event, insert_event,
  reclaim_event, read_event, claim_step, is_reclaimable,
}
use buyseekk.Billing.Claim.Leases.{updated_self}

module _ (now : ℕ) (id : Text) (store : Store) where
  pub claim_fresh :
      find_event id store ≡ none
      → claim_billing_event now id store
        ≡ (ClaimResult.claimed, record store { events = store.events ++ new_event now id ∷ [] })
  unfolding claim_billing_event claim_step insert_event
  claim_fresh e = ground arith

  module _ {row : BillingEvent} (found : find_event id store ≡ some row) where
    pub claim_processed :
        is_some row.processed_at ≡ true
        → claim_billing_event now id store ≡ (ClaimResult.duplicate, store)
    unfolding claim_billing_event claim_step insert_event read_event
    claim_processed p = ground arith

    pub claim_busy :
        is_some row.processed_at ≡ false
        → lease_active now row.processing_started_at ≡ true
        → claim_billing_event now id store ≡ (ClaimResult.in_progress, store)
    unfolding claim_billing_event claim_step insert_event read_event
    claim_busy p a = ground arith

    pub claim_stale :
        is_some row.processed_at ≡ false
        → lease_active now row.processing_started_at ≡ false
        → ((claim_billing_event now id store).0 ≡ ClaimResult.claimed)
          × (find_event id (claim_billing_event now id store).1 ≡ some (reclaim_row now row))
    unfolding claim_billing_event claim_step insert_event read_event reclaim_event is_reclaimable
    claim_stale p a = ground (arith, updated_self id (reclaim_row now) store (λ e. refl))
