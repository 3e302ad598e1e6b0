-- ===== src/Billing/Sync/Converge.antt =====
-- The rows that a list of deliveries leaves, in whatever order Stripe delivers them.
use buyseekk.Prelude.{
  ℕ, suc, ◌≡◌, refl, sym, ap, ◌∙◌, inl, inr, true, Option, none, some, List, [], ◌∷◌, Text, arith,
  Option-cases,
}
use mathlib.Core.List.{Permᴰ}
use buyseekk.Shared.Subscription.{SubscriptionStatus}
use buyseekk.Billing.Store.{SubscriptionFields, BillingCustomer, Store}
use buyseekk.Billing.Mapper.{NormalizedStripeSubscription}
use buyseekk.Billing.Sync.Order.{
  precedes, precedes_total, should_skip-precedes, should_skip_stale_event-precedes,
  should_skip_stale_event-later,
}
use buyseekk.Billing.Sync.Rows.{
  fields_at, Delivery, settle, accepted, absorb, sync_delivery, sync-customers, sync-fields_at,
}

module _ (c1 c2 : BillingCustomer) (status1 status2 : SubscriptionStatus) (d1 d2 : Delivery)
    (before : precedes d1.at status1 d1.event_id d2.at status2 d2.event_id ≡ true) where
  settle_ordered :
      (o : Option SubscriptionFields)
      → settle (settle o c2 status2 d2) c1 status1 d1
        ≡ settle (settle o c1 status1 d1) c2 status2 d2
  settle_ordered none = ground (
    arith,
    should_skip_stale_event-precedes c1 d1.sub d1.at status1 d1.event_id d2.at status2 d2.event_id
        before,
    should_skip_stale_event-later c2 d2.sub d2.at status2 d2.event_id d1.at status1 d1.event_id
        before,
  )
  settle_ordered (some f) = ground (
    arith,
    should_skip_stale_event-precedes c1 d1.sub d1.at status1 d1.event_id d2.at status2 d2.event_id
        before,
    should_skip_stale_event-later c2 d2.sub d2.at status2 d2.event_id d1.at status1 d1.event_id
        before,
    should_skip-precedes d1.at status1 d1.event_id d2.at status2 d2.event_id f before,
  )

-- Where the report depends on the event alone, it is the same each time that the event is delivered.
abbrev pub delivery_of : (Text → NormalizedStripeSubscription × ℕ) → Text → Delivery
delivery_of source id = let (sub, at) = source id in record { sub = sub; at = at; event_id = id }

-- The events are delivered one after the other, the i-th one at the time `clock i`.
abbrev pub deliver :
    (ℕ → Text) → (Text → NormalizedStripeSubscription × ℕ) → (ℕ → ℕ) → ℕ → List Text → Store → Store
deliver cuid source clock i [] store = store
deliver cuid source clock i (id ∷ ids) store =
    deliver cuid source clock (suc i) ids
      (sync_delivery cuid (clock i) (delivery_of source id) store)

abbrev absorb_all :
    (ℕ → Text)
    → (Text → NormalizedStripeSubscription × ℕ)
    → Text
    → List BillingCustomer
    → List Text
    → Option SubscriptionFields
    → Option SubscriptionFields
absorb_all cuid source sub_id customers [] o = o
absorb_all cuid source sub_id customers (id ∷ ids) o =
    absorb_all cuid source sub_id customers ids
      (absorb cuid sub_id customers (delivery_of source id) o)

module _ (cuid : ℕ → Text) (source : Text → NormalizedStripeSubscription × ℕ) (sub_id : Text) where
  deliver-fields_at :
      (clock : ℕ → ℕ) (i : ℕ) (ids : List Text) (store : Store)
      → fields_at sub_id (deliver cuid source clock i ids store)
        ≡ absorb_all cuid source sub_id store.customers ids (fields_at sub_id store)
  deliver-fields_at clock i [] store = refl
  deliver-fields_at clock i (id ∷ ids) store =
      let d = delivery_of source id in
      let next = sync_delivery cuid (clock i) d store in
      deliver-fields_at clock (suc i) ids next
      ∙ ap (λ c. absorb_all cuid source sub_id c ids (fields_at sub_id next))
          (sync-customers cuid (clock i) d store)
      ∙ ap (absorb_all cuid source sub_id store.customers ids)
          (sync-fields_at cuid (clock i) d store sub_id)

  settle_comm :
      (c1 c2 : BillingCustomer) (status1 status2 : SubscriptionStatus) (id1 id2 : Text)
      (o : Option SubscriptionFields)
      → precedes (source id1).1 status1 id1 (source id2).1 status2 id2 ≡ true
      → settle (settle o c2 status2 (delivery_of source id2)) c1 status1 (delivery_of source id1)
        ≡ settle (settle o c1 status1 (delivery_of source id1)) c2 status2 (delivery_of source id2)
  settle_comm c1 c2 status1 status2 id1 id2 o h =
      settle_ordered c1 c2 status1 status2 (delivery_of source id1) (delivery_of source id2) h o

  absorb_comm :
      (customers : List BillingCustomer) (id1 id2 : Text) (o : Option SubscriptionFields)
      → absorb cuid sub_id customers
          (delivery_of source id1)
          (absorb cuid sub_id customers (delivery_of source id2) o)
        ≡ absorb cuid sub_id customers
            (delivery_of source id2)
            (absorb cuid sub_id customers (delivery_of source id1) o)
  unfolding absorb
  absorb_comm customers id1 id2 o =
      elim (Option-cases (accepted cuid sub_id customers (delivery_of source id1))) [
        | inl e ↦ ground arith
        | inr ((c1, status1), e1) ↦
            elim (Option-cases (accepted cuid sub_id customers (delivery_of source id2))) [
              | inl e ↦ ground arith
              | inr ((c2, status2), e2) ↦
                  elim (precedes_total (source id1).1 status1 id1 (source id2).1 status2 id2) [
                    | inl same ↦ rw same
                    | inr (inl h) ↦ ground (arith, settle_comm c1 c2 status1 status2 id1 id2 o h)
                    | inr (inr h) ↦ ground (arith, settle_comm c2 c1 status2 status1 id2 id1 o h)
                  ]
            ]
      ]

  absorb_all-Perm :
      (customers : List BillingCustomer) {ids ids' : List Text}
      → Permᴰ ids ids'
      → (o : Option SubscriptionFields)
      → absorb_all cuid source sub_id customers ids o
        ≡ absorb_all cuid source sub_id customers ids' o
  absorb_all-Perm customers Permᴰ.nil o = refl
  absorb_all-Perm customers (Permᴰ.cons {a} {b} e p) o =
      rw e (absorb_all-Perm customers p (absorb cuid sub_id customers (delivery_of source b) o))
  absorb_all-Perm customers (Permᴰ.swap {a} {b} {l = l} e f) o =
      rw (← e, ← f) (ap (absorb_all cuid source sub_id customers l) (absorb_comm customers b a o))
  absorb_all-Perm customers (Permᴰ.trans p q) o =
      absorb_all-Perm customers p o ∙ absorb_all-Perm customers q o

  -- Reports that depend on the event alone may be synchronised in any order, at any times.
  pub deliver-Perm :
      (clock clock' : ℕ → ℕ) {ids ids' : List Text} (store : Store)
      → Permᴰ ids ids'
      → fields_at sub_id (deliver cuid source clock 0 ids store)
        ≡ fields_at sub_id (deliver cuid source clock' 0 ids' store)
  deliver-Perm clock clock' {ids} {ids'} store p =
      deliver-fields_at clock 0 ids store
      ∙ absorb_all-Perm store.customers p (fields_at sub_id store)
      ∙ sym (deliver-fields_at clock' 0 ids' store)
