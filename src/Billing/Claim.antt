-- ===== src/Billing/Claim.antt =====
-- The lease on a webhook event: `claimBillingEvent` and `markBillingEventProcessed` of
-- apps/api/src/billing/stripe-webhook.service.ts. Each of the claim's database statements is atomic; between them other
-- replicas run, so the claim is also given as a worker that takes one statement at a time.
pub mod Leases
pub mod Reclaim
pub mod Exclusive
pub mod Processed
pub mod Outcomes
use buyseekk.Prelude.{
  ℕ, suc, ◌+◌, ◌*◌, Bool, true, false, Option, none, some, List, [], ◌∷◌, ◌++◌, ◌&&◌, not, ltb, leb,
  is_some, is_none, Text, text_eq, if◌then◌else◌,
}
use buyseekk.Billing.Store.{BillingEvent, Store, BillingError, Action, is_event, find_event}
use buyseekk.Shared.Keyed.{modify_first}
use buyseekk.Shared.Effect.{ok, err}

-- BILLING_EVENT_LEASE_MS of billing.config.ts
abbrev pub billing_event_lease_ms : ℕ
billing_event_lease_ms = 2 * 60 * 1000

pub data ClaimResult : Type 0 where
  claimed duplicate in_progress : ClaimResult

-- What a worker has still to do. A reread event is `stale` once its lease was seen to be over.
pub data ClaimState : Type 0 where
  inserting conflicted stale : ClaimState
  finished : ClaimResult → ClaimState

abbrev pub new_event : ℕ → Text → BillingEvent
new_event now id = record {
  provider_event_id = id;
  processing_started_at = some now;
  processed_at = none;
  attempt_count = 1;
}

-- `billingEvent.create`, which the unique column refuses where the event has a row.
unfoldable pub insert_event : ℕ → Text → Store → ClaimState × Store
insert_event now id store = elim (find_event id store) [
  | some _ ↦ (ClaimState.conflicted, store)
  | none ↦ (
    ClaimState.finished ClaimResult.claimed,
    record store { events = store.events ++ new_event now id ∷ [] },
  )
]

-- `started > now - lease`
unfoldable pub lease_active : ℕ → Option ℕ → Bool
lease_active now none = false
lease_active now (some started) = ltb now (started + billing_event_lease_ms)

-- `billingEvent.findUnique`, and what follows from the row.
unfoldable pub read_event : ℕ → Text → Store → ClaimState
unfolding lease_active
read_event now id store = elim (find_event id store) [
  | none ↦ ClaimState.finished ClaimResult.in_progress
  | some e ↦
      if is_some e.processed_at
      then ClaimState.finished ClaimResult.duplicate
      else if lease_active now e.processing_started_at
      then ClaimState.finished ClaimResult.in_progress
      else ClaimState.stale
]

-- The `where` of the reclaiming update: not processed, and no lease or one that is over.
unfoldable pub is_reclaimable : ℕ → BillingEvent → Bool
unfolding lease_active
is_reclaimable now e = is_none e.processed_at && not (lease_active now e.processing_started_at)

abbrev pub reclaim_row : ℕ → BillingEvent → BillingEvent
reclaim_row now e = record e {
  processing_started_at = some now;
  attempt_count = suc e.attempt_count;
}

-- `billingEvent.updateMany` by the event's id: how many rows it finds says who won.
unfoldable pub reclaim_event : ℕ → Text → Store → ClaimState × Store
unfolding is_reclaimable
reclaim_event now id store = elim (find_event id store) [
  | none ↦ (ClaimState.finished ClaimResult.in_progress, store)
  | some e ↦
      if is_reclaimable now e
      then (
        ClaimState.finished ClaimResult.claimed,
        record store { events = modify_first (is_event id) (reclaim_row now) store.events },
      )
      else (ClaimState.finished ClaimResult.in_progress, store)
]

-- One statement of a claim.
unfoldable pub claim_step : ℕ → Text → ClaimState → Store → ClaimState × Store
unfolding insert_event read_event reclaim_event
claim_step now id ClaimState.inserting store = insert_event now id store
claim_step now id ClaimState.conflicted store = (read_event now id store, store)
claim_step now id ClaimState.stale store = reclaim_event now id store
claim_step now id (ClaimState.finished r) store = (ClaimState.finished r, store)

abbrev result_of : ClaimState → ClaimResult
result_of (ClaimState.finished r) = r
result_of _ = ClaimResult.in_progress

-- The three statements in a row, with nothing between them.
unfoldable pub claim_billing_event : ℕ → Text → Store → ClaimResult × Store
unfolding claim_step
claim_billing_event now id store =
    let (after_insert, store1) = claim_step now id ClaimState.inserting store in
    let (after_read, store2) = claim_step now id after_insert store1 in
    let (after_reclaim, store3) = claim_step now id after_read store2 in
    (result_of after_reclaim, store3)

abbrev pub processed_row : ℕ → BillingEvent → BillingEvent
processed_row at e = record e { processed_at = some at }

-- `billingEvent.update`, which throws where no row has the id.
unfoldable pub mark_billing_event_processed : ℕ → Text → Action (Unit {0})
mark_billing_event_processed at id store = elim (find_event id store) [
  | none ↦ (err BillingError.record_not_found, store)
  | some _ ↦
      (ok tt, record store { events = modify_first (is_event id) (processed_row at) store.events })
]
