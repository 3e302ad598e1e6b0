-- ===== src/Billing/Claim/Processed.antt =====
-- What every interleaving of claims leaves of an event that is processed.
use buyseekk.Prelude.{
  ℕ, ◌≡◌, refl, ◌∙◌, inl, inr, true, false, Option, none, some, List, [], ◌∷◌, is_some, Text,
  text_eq, arith, Bool-cases,
}
use mathlib.Core.Option
use buyseekk.Shared.TextOrder.{text_eq_refl, text_eq_sound}
use buyseekk.Billing.Store.{BillingEvent, Store, find_event}
use buyseekk.Billing.Claim.{
  ClaimState, is_reclaimable, processed_row, insert_event, read_event, reclaim_event, claim_step,
  mark_billing_event_processed,
}
use buyseekk.Billing.Claim.Leases.{
  Statement, wins, execute, execute_all, execute_other, mark_other, mark_self,
}
use buyseekk.Billing.Claim.Reclaim.{read_event-wins}

abbrev pub IsProcessed : Option BillingEvent → Type 0
IsProcessed none = false ≡ true
IsProcessed (some e) = is_some e.processed_at ≡ true

-- A claim's statement finds a processed event taken.
claim_step_of_processed :
    (now : ℕ) (id : Text) (local : ClaimState) (store : Store)
    → IsProcessed (find_event id store)
    → (wins local (claim_step now id local store).0 ≡ false)
      × ((claim_step now id local store).1 ≡ store)
unfolding claim_step insert_event read_event reclaim_event is_reclaimable
claim_step_of_processed now id ClaimState.inserting store h = ground arith
claim_step_of_processed now id ClaimState.conflicted store h = (read_event-wins now id store, refl)
claim_step_of_processed now id ClaimState.stale store h = ground arith
claim_step_of_processed now id (ClaimState.finished r) store h = (refl, refl)

mark_of_IsProcessed :
    (at : ℕ) (id : Text) (store : Store)
    → IsProcessed (find_event id store)
    → IsProcessed (find_event id (mark_billing_event_processed at id store).1)
mark_of_IsProcessed at id store h = rw (mark_self at id store) (marked (find_event id store) h)
  where
    marked :
        (o : Option BillingEvent) → IsProcessed o → IsProcessed (Option.map (processed_row at) o)
    marked none p = p
    marked (some e) p = refl

execute_of_IsProcessed :
    (target : Text) (statement : Statement) (grants : List ℕ) (store : Store)
    → IsProcessed (find_event target store)
    → let out = execute target statement (grants, store) in
      (out.0 ≡ grants) × IsProcessed (find_event target out.1)
unfolding execute
execute_of_IsProcessed target (Statement.claiming now id local) grants store h =
    elim (Bool-cases (text_eq id target)) [
      | inl e ↦
          let done = claim_step_of_processed now target local store h in
          rw (text_eq_sound id target e, text_eq_refl target, done.0, done.1) (refl, h)
      | inr e ↦ rw (e, execute_other target now id local store e) (refl, h)
    ]
execute_of_IsProcessed target (Statement.marking at id) grants store h =
    elim (Bool-cases (text_eq id target)) [
      | inl e ↦ rw (text_eq_sound id target e) (refl, mark_of_IsProcessed at target store h)
      | inr e ↦ rw (mark_other target at id store e) (refl, h)
    ]

-- Once an event is processed no statement of any worker gives it to anyone again, and it stays processed.
pub execute_all_of_IsProcessed :
    (target : Text) (statements : List Statement) (grants : List ℕ) (store : Store)
    → IsProcessed (find_event target store)
    → let out = execute_all target statements (grants, store) in
      (out.0 ≡ grants) × IsProcessed (find_event target out.1)
execute_all_of_IsProcessed target [] grants store h = (refl, h)
execute_all_of_IsProcessed target (statement ∷ rest) grants store h =
    let one = execute_of_IsProcessed target statement grants store h in
    let out = execute target statement (grants, store) in
    let (same, processed) = execute_all_of_IsProcessed target rest out.0 out.1 one.1 in
    (same ∙ one.0, processed)
