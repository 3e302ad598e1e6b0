-- ===== src/Billing/Claim/Reclaim.antt =====
-- The statements of a claim on one row: what is inserted, what is reclaimed and who wins.
use buyseekk.Prelude.{ℕ, suc, ◌≡◌, refl, ap, true, false, none, some, List, [], ◌∷◌, Text, arith}
use buyseekk.Shared.TextOrder.{text_eq_refl}
use buyseekk.Shared.Keyed.{find_first-append_new}
use buyseekk.Billing.Store.{BillingEvent, Store, is_event, find_event}
use buyseekk.Billing.Claim.{
  ClaimResult, ClaimState, is_reclaimable, new_event, reclaim_row, processed_row, insert_event,
  read_event, reclaim_event,
}
use buyseekk.Billing.Claim.Leases.{wins, IsHeld, updated_self}

-- A row that may be reclaimed was last given a lease's length ago.
pub reclaim-IsHeld :
    (now : ℕ) (grants : List ℕ) (e : BillingEvent)
    → is_reclaimable now e ≡ true
    → IsHeld grants (some e)
    → IsHeld (now ∷ grants) (some (reclaim_row now e))
unfolding is_reclaimable
reclaim-IsHeld now [] e r h = absurd (cc h)
reclaim-IsHeld now (t ∷ ts) e r (started, count, spaced) =
    (refl, ap suc count, (ground arith, spaced))

pub new_event-IsHeld :
    (now : ℕ) (id : Text) (grants : List ℕ)
    → IsHeld grants none
    → IsHeld (now ∷ grants) (some (new_event now id))
new_event-IsHeld now id grants h = rw h (refl, refl, tt)

pub processed_row-IsHeld :
    (at : ℕ) (grants : List ℕ) (e : BillingEvent)
    → IsHeld grants (some e)
    → IsHeld grants (some (processed_row at e))
processed_row-IsHeld at [] e h = h
processed_row-IsHeld at (t ∷ ts) e h = h

module _ (now : ℕ) (id : Text) (store : Store) where
  pub insert_new :
      find_event id store ≡ none
      → ((insert_event now id store).0 ≡ ClaimState.finished ClaimResult.claimed)
        × (find_event id (insert_event now id store).1 ≡ some (new_event now id))
  unfolding insert_event
  insert_new e = ground (
    arith,
    find_first-append_new (is_event id) (new_event now id) store.events e (text_eq_refl id),
  )

  pub insert_old :
      {row : BillingEvent}
      → find_event id store ≡ some row
      → insert_event now id store ≡ (ClaimState.conflicted, store)
  unfolding insert_event
  insert_old e = ground arith

  pub reclaim_won :
      {row : BillingEvent}
      → find_event id store ≡ some row
      → is_reclaimable now row ≡ true
      → ((reclaim_event now id store).0 ≡ ClaimState.finished ClaimResult.claimed)
        × (find_event id (reclaim_event now id store).1 ≡ some (reclaim_row now row))
  unfolding reclaim_event
  reclaim_won e r = ground (arith, updated_self id (reclaim_row now) store (λ e. refl))

  pub reclaim_lost :
      {row : BillingEvent}
      → find_event id store ≡ some row
      → is_reclaimable now row ≡ false
      → reclaim_event now id store ≡ (ClaimState.finished ClaimResult.in_progress, store)
  unfolding reclaim_event
  reclaim_lost e r = ground arith

  pub reclaim_missing :
      find_event id store ≡ none
      → reclaim_event now id store ≡ (ClaimState.finished ClaimResult.in_progress, store)
  unfolding reclaim_event
  reclaim_missing e = ground arith

pub read_event-wins :
    (now : ℕ) (id : Text) (store : Store)
    → wins ClaimState.conflicted (read_event now id store) ≡ false
unfolding read_event
read_event-wins now id store = ground arith
