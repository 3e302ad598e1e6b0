-- ===== src/Billing/Sync/Order.antt =====
-- The order of provider events that `shouldSkipStaleEvent` follows.
use buyseekk.Prelude.{
  ℕ, ◌≡◌, ◌≢◌, sym, ◌∙◌, ◌⊎◌, inl, inr, Bool, true, false, is_empty, Text, arith, Option-cases, [],
  ◌∷◌, refl, Option, none, some,
}
use buyseekk.Shared.TextOrder.{ltb_text, ltb_text_asym, ltb_text_total, ltb_text_of_le}
use buyseekk.Shared.Subscription.{SubscriptionStatus}
use buyseekk.Billing.Store.{SubscriptionFields, BillingCustomer}
use buyseekk.Billing.Mapper.{NormalizedStripeSubscription}
use buyseekk.Billing.Sync.{
  subscription_status_rank, should_skip_stale_event, fields_of, older, id_is_old,
}

-- A report is older, or of the same second and of a lower rank, or of the same rank and of a smaller id.
unfoldable pub precedes : ℕ → SubscriptionStatus → Text → ℕ → SubscriptionStatus → Text → Bool
precedes at1 status1 id1 at2 status2 id2 =
    older at1 (subscription_status_rank status1) at2 (subscription_status_rank status2)
      (ltb_text id1 id2)

older_trans :
    (at1 rank1 at2 rank2 last rank : ℕ) (tie12 tie2 tie1 : Bool)
    → older at1 rank1 at2 rank2 tie12 ≡ true
    → older at2 rank2 last rank tie2 ≡ true
    → (tie12 ≡ true → tie2 ≡ true → tie1 ≡ true)
    → older at1 rank1 last rank tie1 ≡ true
older_trans at1 rank1 at2 rank2 last rank tie12 tie2 tie1 h k t = ground (arith, t)

id_is_old-ltb_text :
    (o : Option Text) (id1 id2 : Text)
    → ltb_text id1 id2 ≡ true
    → id_is_old o id2 ≡ true
    → id_is_old o id1 ≡ true
id_is_old-ltb_text none id1 id2 h k = cc
id_is_old-ltb_text (some last) id1 id2 h k =
    ground (arith, ltb_text_of_le id1 id2 last, ltb_text_asym id1 last)

ltb_text-is_empty : (s t : Text) → ltb_text s t ≡ true → is_empty t ≡ false
ltb_text-is_empty [] [] h = cc
ltb_text-is_empty (_ ∷ _) [] h = cc
ltb_text-is_empty s (_ ∷ _) h = refl

should_skip_of_none :
    (existing : SubscriptionFields) (status : SubscriptionStatus) (at : ℕ) (id : Text)
    → existing.last_provider_event_at ≡ none
    → should_skip_stale_event existing status at id ≢ true
unfolding should_skip_stale_event
should_skip_of_none existing status at id e = ground arith

should_skip_of_time :
    (existing : SubscriptionFields) (status : SubscriptionStatus) (at : ℕ) (id : Text) (last : ℕ)
    → existing.last_provider_event_at ≡ some last
    → should_skip_stale_event existing status at id
      ≡ older at
          (subscription_status_rank status)
          last
          (subscription_status_rank existing.status)
          (id_is_old existing.last_provider_event_id id)
unfolding should_skip_stale_event subscription_status_rank
should_skip_of_time existing status at id last e = rw e

module _ (at1 : ℕ) (status1 : SubscriptionStatus) (id1 : Text) (at2 : ℕ)
    (status2 : SubscriptionStatus) (id2 : Text) where
  pub precedes_total :
      (id1 ≡ id2)
      ⊎ ((precedes at1 status1 id1 at2 status2 id2 ≡ true)
          ⊎ (precedes at2 status2 id2 at1 status1 id1 ≡ true))
  unfolding precedes
  precedes_total = ground (arith, ltb_text_total id1 id2)

  -- What is stale for a row makes an earlier report stale too.
  pub should_skip-precedes :
      (existing : SubscriptionFields)
      → precedes at1 status1 id1 at2 status2 id2 ≡ true
      → should_skip_stale_event existing status2 at2 id2 ≡ true
      → should_skip_stale_event existing status1 at1 id1 ≡ true
  unfolding precedes
  should_skip-precedes existing h k = elim (Option-cases existing.last_provider_event_at) [
    | inl e ↦ absurd (should_skip_of_none existing status2 at2 id2 e k)
    | inr (last, e) ↦
        should_skip_of_time existing status1 at1 id1 last e
        ∙ older_trans at1 (subscription_status_rank status1) at2 (subscription_status_rank status2)
            last (subscription_status_rank existing.status) _ _ _ h
            (sym (should_skip_of_time existing status2 at2 id2 last e) ∙ k)
            (id_is_old-ltb_text existing.last_provider_event_id id1 id2)
  ]

-- For a row that a synchronisation wrote, a later report is not stale and an earlier one is.
module _ (customer : BillingCustomer) (sub : NormalizedStripeSubscription) (at1 : ℕ)
    (status1 : SubscriptionStatus) (id1 : Text) (at2 : ℕ) (status2 : SubscriptionStatus)
    (id2 : Text) where
  pub should_skip_stale_event-precedes :
      precedes at1 status1 id1 at2 status2 id2 ≡ true
      → should_skip_stale_event (fields_of customer status1 sub at1 id1) status2 at2 id2 ≡ false
  unfolding precedes should_skip_stale_event
  should_skip_stale_event-precedes h = ground (arith, ltb_text_asym id1 id2)

  pub should_skip_stale_event-later :
      precedes at2 status2 id2 at1 status1 id1 ≡ true
      → should_skip_stale_event (fields_of customer status1 sub at1 id1) status2 at2 id2 ≡ true
  unfolding precedes should_skip_stale_event
  should_skip_stale_event-later h = ground (arith, ltb_text_asym id2 id1, ltb_text-is_empty id2 id1)
