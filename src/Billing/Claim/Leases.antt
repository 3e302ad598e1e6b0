-- ===== src/Billing/Claim/Leases.antt =====
-- Many workers that claim webhook events at once, statement by statement, in any order.
use buyseekk.Prelude.{
  ℕ, ◌+◌, ◌≤◌, ◌≡◌, refl, ap, Bool, true, false, not, ◌&&◌, Option, none, some, List, [], ◌∷◌,
  length, Text, text_eq, if◌then◌else◌, arith,
}
use mathlib.Core.Option
use buyseekk.Shared.TextOrder.{text_eq_sound}
use buyseekk.Shared.Keyed.{
  modify_first, find_first-modify_first, find_first-modify_other, find_first-append_other,
}
use buyseekk.Billing.Store.{BillingEvent, Store, is_event, find_event}
use buyseekk.Billing.Claim.{
  billing_event_lease_ms, ClaimResult, ClaimState, new_event, reclaim_row, processed_row,
  insert_event, reclaim_event, claim_step, mark_billing_event_processed,
}

-- A worker's next statement, at its clock's time, for an event and with what the worker knows; or
-- the mark that an event is processed.
pub data Statement : Type 0 where
  claiming : (now : ℕ) → (id : Text) → ClaimState → Statement
  marking : (at : ℕ) → (id : Text) → Statement

abbrev is_finished : ClaimState → Bool
is_finished (ClaimState.finished _) = true
is_finished _ = false

abbrev is_claimed : ClaimState → Bool
is_claimed (ClaimState.finished ClaimResult.claimed) = true
is_claimed _ = false

-- Did this statement give the worker the event?
abbrev pub wins : ClaimState → ClaimState → Bool
wins before after = not (is_finished before) && is_claimed after

-- The times at which the event was given to a worker, the last one first, with the tables.
unfoldable pub execute : Text → Statement → List ℕ × Store → List ℕ × Store
execute target (Statement.claiming now id local) (grants, store) =
    let (after, store') = claim_step now id local store in
    (if text_eq id target && wins local after then now ∷ grants else grants, store')
execute target (Statement.marking at id) (grants, store) =
    (grants, (mark_billing_event_processed at id store).1)

abbrev pub execute_all : Text → List Statement → List ℕ × Store → List ℕ × Store
execute_all target [] state = state
execute_all target (statement ∷ rest) state =
    execute_all target rest (execute target statement state)

-- Each grant is a lease's length after the one before it.
abbrev pub IsSpaced : List ℕ → Type 0
IsSpaced [] = Unit {0}
IsSpaced (t ∷ []) = Unit {0}
IsSpaced (t ∷ u ∷ ts) = (u + billing_event_lease_ms ≤ t) × IsSpaced (u ∷ ts)

-- The event's row records the last grant and how many there were.
abbrev pub IsHeld : List ℕ → Option BillingEvent → Type 0
IsHeld grants none = grants ≡ []
IsHeld [] (some e) = false ≡ true
IsHeld (t ∷ ts) (some e) =
    (e.processing_started_at ≡ some t) × (e.attempt_count ≡ length (t ∷ ts)) × IsSpaced (t ∷ ts)

is_event_other :
    (id other : Text) (e : BillingEvent)
    → text_eq id other ≡ false
    → is_event id e ≡ true
    → is_event other e ≡ false
is_event_other id other e ne h = ground (arith, text_eq_sound e.provider_event_id id)

-- An update of an event's row, as the row of that event and that of another one see it.
module _ (id : Text) (f : BillingEvent → BillingEvent) (store : Store)
    (kept : (e : BillingEvent) → (f e).provider_event_id ≡ e.provider_event_id) where
  abbrev pub updated : Store
  updated = record store { events = modify_first (is_event id) f store.events }

  pub updated_self : find_event id updated ≡ Option.map f (find_event id store)
  updated_self =
      find_first-modify_first (is_event id) f (λ e. ap (λ k. text_eq k id) (kept e)) store.events

  pub updated_other :
      (other : Text) → text_eq id other ≡ false → find_event other updated ≡ find_event other store
  updated_other other ne =
      find_first-modify_other (is_event id) (is_event other) f
        (λ e h. ap (λ k. text_eq k other) (kept e)) (λ e h. is_event_other id other e ne h)
        store.events

-- A statement for another event leaves the event's row as it is.
pub execute_other :
    (target : Text) (now : ℕ) (id : Text) (local : ClaimState) (store : Store)
    → text_eq id target ≡ false
    → find_event target (claim_step now id local store).1 ≡ find_event target store
unfolding claim_step insert_event reclaim_event
execute_other target now id ClaimState.inserting store ne =
    ground (arith, find_first-append_other (is_event target) (new_event now id) store.events)
execute_other target now id ClaimState.conflicted store ne = refl
execute_other target now id ClaimState.stale store ne =
    ground (arith, updated_other id (reclaim_row now) store (λ e. refl) target ne)
execute_other target now id (ClaimState.finished r) store ne = refl

pub mark_other :
    (target : Text) (at : ℕ) (id : Text) (store : Store)
    → text_eq id target ≡ false
    → find_event target (mark_billing_event_processed at id store).1 ≡ find_event target store
unfolding mark_billing_event_processed
mark_other target at id store ne =
    ground (arith, updated_other id (processed_row at) store (λ e. refl) target ne)

pub mark_self :
    (at : ℕ) (id : Text) (store : Store)
    → find_event id (mark_billing_event_processed at id store).1
      ≡ Option.map (processed_row at) (find_event id store)
unfolding mark_billing_event_processed
mark_self at id store = ground (arith, updated_self id (processed_row at) store (λ e. refl))
