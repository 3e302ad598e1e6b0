-- ===== src/Billing/Claim/Exclusive.antt =====
-- What every interleaving of claims keeps: one worker at a time.
use buyseekk.Prelude.{
  ℕ, ◌≡◌, refl, ap, subst, inl, inr, true, false, Option, none, some, List, [], ◌∷◌, length, Text,
  text_eq, if◌then◌else◌, Bool-cases, Option-cases,
}
use mathlib.Core.Option
use buyseekk.Shared.TextOrder.{text_eq_sound}
use buyseekk.Billing.Store.{BillingEvent, Store, find_event}
use buyseekk.Billing.Claim.{
  ClaimState, is_reclaimable, processed_row, insert_event, read_event, reclaim_event, claim_step,
  mark_billing_event_processed,
}
use buyseekk.Billing.Claim.Leases.{
  Statement, wins, execute, execute_all, IsSpaced, IsHeld, execute_other, mark_other, mark_self,
}
use buyseekk.Billing.Claim.Reclaim.{
  reclaim-IsHeld, new_event-IsHeld, processed_row-IsHeld, insert_new, insert_old, reclaim_won,
  reclaim_lost, reclaim_missing, read_event-wins,
}

abbrev grants_after : ℕ → List ℕ → ClaimState → ClaimState × Store → List ℕ
grants_after now grants local out = if wins local out.0 then now ∷ grants else grants

-- A statement that found the event free, and one that did not.
module _ (now : ℕ) (id : Text) (grants : List ℕ) (local : ClaimState)
    (out : ClaimState × Store) where
  IsHeld-won :
      {row : BillingEvent}
      → wins local out.0 ≡ true
      → find_event id out.1 ≡ some row
      → IsHeld (now ∷ grants) (some row)
      → IsHeld (grants_after now grants local out) (find_event id out.1)
  IsHeld-won w e h = rw (w, e) h

  IsHeld-same :
      (store : Store)
      → wins local out.0 ≡ false
      → out.1 ≡ store
      → IsHeld grants (find_event id store)
      → IsHeld (grants_after now grants local out) (find_event id out.1)
  IsHeld-same store w e h = rw (w, e) h

module _ (now : ℕ) (id : Text) (grants : List ℕ) (store : Store)
    (held : IsHeld grants (find_event id store)) where
  claim_step-IsHeld :
      (local : ClaimState)
      → let out = claim_step now id local store in
        IsHeld (grants_after now grants local out) (find_event id out.1)
  unfolding claim_step
  claim_step-IsHeld ClaimState.inserting = elim (Option-cases (find_event id store)) [
    | inl e ↦
        IsHeld-won now id grants ClaimState.inserting (insert_event now id store)
          (ap (wins ClaimState.inserting) (insert_new now id store e).0)
          (insert_new now id store e).1
          (new_event-IsHeld now id grants (subst (IsHeld grants) e held))
    | inr (row, e) ↦
        IsHeld-same now id grants ClaimState.inserting (insert_event now id store) store
          (ap (λ (x : ClaimState × Store). wins ClaimState.inserting x.0)
            (insert_old now id store e))
          (ap (λ (x : ClaimState × Store). x.1) (insert_old now id store e)) held
  ]
  claim_step-IsHeld ClaimState.conflicted =
      IsHeld-same now id grants ClaimState.conflicted (read_event now id store, store) store
        (read_event-wins now id store) refl held
  claim_step-IsHeld ClaimState.stale = elim (Option-cases (find_event id store)) [
    | inl e ↦
        IsHeld-same now id grants ClaimState.stale (reclaim_event now id store) store
          (ap (λ (x : ClaimState × Store). wins ClaimState.stale x.0)
            (reclaim_missing now id store e))
          (ap (λ (x : ClaimState × Store). x.1) (reclaim_missing now id store e)) held
    | inr (row, e) ↦ elim (Bool-cases (is_reclaimable now row)) [
      | inl r ↦
          IsHeld-won now id grants ClaimState.stale (reclaim_event now id store)
            (ap (wins ClaimState.stale) (reclaim_won now id store e r).0)
            (reclaim_won now id store e r).1
            (reclaim-IsHeld now grants row r (subst (IsHeld grants) e held))
      | inr r ↦
          IsHeld-same now id grants ClaimState.stale (reclaim_event now id store) store
            (ap (λ (x : ClaimState × Store). wins ClaimState.stale x.0)
              (reclaim_lost now id store e r))
            (ap (λ (x : ClaimState × Store). x.1) (reclaim_lost now id store e r)) held
    ]
  ]
  claim_step-IsHeld (ClaimState.finished r) =
      IsHeld-same now id grants (ClaimState.finished r) (ClaimState.finished r, store) store refl
        refl held

  mark-IsHeld : IsHeld grants (find_event id (mark_billing_event_processed now id store).1)
  mark-IsHeld = rw (mark_self now id store) (marked (find_event id store) held)
    where
      marked :
          (o : Option BillingEvent)
          → IsHeld grants o
          → IsHeld grants (Option.map (processed_row now) o)
      marked none h = h
      marked (some e) h = processed_row-IsHeld now grants e h

-- One statement, whoever makes it, for this event or another.
execute-IsHeld :
    (target : Text) (statement : Statement) (grants : List ℕ) (store : Store)
    → IsHeld grants (find_event target store)
    → let out = execute target statement (grants, store) in IsHeld out.0 (find_event target out.1)
unfolding execute
execute-IsHeld target (Statement.claiming now id local) grants store held =
    elim (Bool-cases (text_eq id target)) [
      | inl e ↦
          rw (e, ← text_eq_sound id target e)
            (claim_step-IsHeld now id grants store (rw (text_eq_sound id target e) held) local)
      | inr e ↦ rw (e, execute_other target now id local store e) held
    ]
execute-IsHeld target (Statement.marking at id) grants store held =
    elim (Bool-cases (text_eq id target)) [
      | inl e ↦
          rw (← text_eq_sound id target e)
            (mark-IsHeld at id grants store (rw (text_eq_sound id target e) held))
      | inr e ↦ rw (mark_other target at id store e) held
    ]

execute_all-IsHeld :
    (target : Text) (statements : List Statement) (state : List ℕ × Store)
    → IsHeld state.0 (find_event target state.1)
    → let out = execute_all target statements state in IsHeld out.0 (find_event target out.1)
execute_all-IsHeld target [] state held = held
execute_all-IsHeld target (statement ∷ rest) state held =
    execute_all-IsHeld target rest (execute target statement state)
      (execute-IsHeld target statement state.0 state.1 held)

IsHeld-IsSpaced : (grants : List ℕ) (o : Option BillingEvent) → IsHeld grants o → IsSpaced grants
IsHeld-IsSpaced grants none h = rw h tt
IsHeld-IsSpaced [] (some e) h = tt
IsHeld-IsSpaced (t ∷ ts) (some e) (started, count, spaced) = spaced

abbrev pub attempts : Option BillingEvent → ℕ
attempts none = 0
attempts (some e) = e.attempt_count

IsHeld-attempts :
    (grants : List ℕ) (o : Option BillingEvent) → IsHeld grants o → attempts o ≡ length grants
IsHeld-attempts grants none h = rw h
IsHeld-attempts [] (some e) h = absurd (cc h)
IsHeld-attempts (t ∷ ts) (some e) (started, count, spaced) = count

-- However the statements of any number of workers interleave, at whatever times their clocks show and for whatever
-- events, an event that had no row is given to a worker at times that lie at least the lease apart, and the attempt
-- count of its row is how often it was given.
pub execute_all-IsSpaced :
    (target : Text) (statements : List Statement) (store : Store)
    → find_event target store ≡ none
    → let out = execute_all target statements ([], store) in
      IsSpaced out.0 × (attempts (find_event target out.1) ≡ length out.0)
execute_all-IsSpaced target statements store fresh =
    let out = execute_all target statements ([], store) in
    let held = execute_all-IsHeld target statements ([], store) (rw fresh refl) in
    (
      IsHeld-IsSpaced out.0 (find_event target out.1) held,
      IsHeld-attempts out.0 (find_event target out.1) held,
    )
