-- ===== src/Billing/Webhook/Ledger.antt =====
-- The handlers of the webhook's event types leave the ledger of events alone.
use buyseekk.Prelude.{
  ℕ, ◌*◌, ◌≡◌, refl, ◌∙◌, inl, inr, Option, none, some, Text, arith, Bool-cases, Option-cases,
}
use buyseekk.Shared.Effect.{Outcome, ok, err, ◌>>=◌}
use buyseekk.Billing.Store.{Store, BillingError, Action}
use buyseekk.Billing.Mapper.{
  NormalizedStripeSubscription, normalize_stripe_subscription, StripeSubscription, StripeStatus,
  expandable_id,
}
use buyseekk.Billing.Sync.{
  sync_stripe_subscription, upsert_subscription, sync_plan_cache_from_entitlements,
}
use buyseekk.Billing.Webhook.{
  Provider, StripeEvent, EventObject, Times, mark_checkout_session_status,
  handle_checkout_session_completed, handle_checkout_session_expired, handle_subscription_changed,
  handle_subscription_deleted, handle_invoice_payment_failed, dispatch_supported_event, sync,
  retrieve, sync_retrieved, CheckoutSession, Invoice, filled_id, extract_invoice_subscription_id,
}

sync-events :
    (cuid : ℕ → Text) (now : ℕ) (sub : NormalizedStripeSubscription) (at : ℕ) (id : Text)
    (store : Store)
    → (sync_stripe_subscription cuid now sub at id store).1.events ≡ store.events
unfolding sync_stripe_subscription sync_plan_cache_from_entitlements upsert_subscription
sync-events cuid now sub at id store = ground arith

-- An action that leaves the ledger of events as it is.
abbrev pub IsEventless : {A : Type 0} → Action A → Type 0
IsEventless m = (store : Store) → (m store).1.events ≡ store.events

bind-IsEventless :
    {A B : Type 0} (m : Action A) (f : A → Action B)
    → IsEventless m
    → ((a : A) → IsEventless (f a))
    → IsEventless (m >>= f)
bind-IsEventless {A} {B} m f q r store = after (m store).0 (m store).1 (q store)
  where
    after :
        (o : Outcome BillingError A) (store' : Store)
        → store'.events ≡ store.events
        → let out : Outcome BillingError B × Store = elim o [
          | ok a ↦ f a store'
          | err e ↦ (err e, store')
        ] in
          out.1.events ≡ store.events
    after (ok a) store' same = r a store' ∙ same
    after (err e) store' same = same

normalize-IsEventless : (sub : StripeSubscription) → IsEventless (normalize_stripe_subscription sub)
unfolding normalize_stripe_subscription
normalize-IsEventless sub store = ground arith

module _ (provider : Provider) (times : Times) where
  sync-IsEventless :
      (sub : NormalizedStripeSubscription) (at : ℕ) (id : Text)
      → IsEventless (sync provider times sub at id)
  sync-IsEventless sub at id store = sync-events provider.cuid times.synced_at sub at id store

  sync_retrieved-IsEventless :
      (at : ℕ) (id : Text) (customer sub : Option Text)
      → IsEventless (sync_retrieved provider times at id customer sub)
  sync_retrieved-IsEventless at id none sub = λ store. refl
  sync_retrieved-IsEventless at id (some _) none = λ store. refl
  sync_retrieved-IsEventless at id (some _) (some sub_id) =
      bind-IsEventless (retrieve provider sub_id) (λ sub. sync provider times sub at id)
        (λ store. refl) (λ sub. sync-IsEventless sub at id)

  completed-IsEventless :
      (session : CheckoutSession) (at : ℕ) (id : Text)
      → IsEventless (handle_checkout_session_completed provider times session at id)
  unfolding handle_checkout_session_completed mark_checkout_session_status
  completed-IsEventless session at id store = elim (Bool-cases session.mode_is_subscription) [
    | inl e ↦ rw e (
        sync_retrieved-IsEventless at id (expandable_id session.customer)
          (expandable_id session.subscription) _)
    | inr e ↦ rw e
  ]

  expired-IsEventless :
      (session : CheckoutSession) → IsEventless (handle_checkout_session_expired session)
  unfolding handle_checkout_session_expired mark_checkout_session_status
  expired-IsEventless session store = refl

  changed-IsEventless :
      (sub : StripeSubscription) (at : ℕ) (id : Text)
      → IsEventless (handle_subscription_changed provider times sub at id)
  unfolding handle_subscription_changed
  changed-IsEventless sub at id =
      bind-IsEventless (normalize_stripe_subscription sub) (λ n. sync provider times n at id)
        (normalize-IsEventless sub) (λ n. sync-IsEventless n at id)

  deleted-IsEventless :
      (sub : StripeSubscription) (at : ℕ) (id : Text)
      → IsEventless (handle_subscription_deleted provider times sub at id)
  unfolding handle_subscription_deleted
  deleted-IsEventless sub at id =
      bind-IsEventless (normalize_stripe_subscription sub)
        (λ n. sync provider times (record n { status = StripeStatus.canceled }) at id)
        (normalize-IsEventless sub)
        (λ n. sync-IsEventless (record n { status = StripeStatus.canceled }) at id)

  failed-IsEventless :
      (invoice : Invoice) (at : ℕ) (id : Text)
      → IsEventless (handle_invoice_payment_failed provider times invoice at id)
  unfolding handle_invoice_payment_failed
  failed-IsEventless invoice at id store =
      elim (Option-cases (filled_id (extract_invoice_subscription_id invoice))) [
        | inl e ↦ ground arith
        | inr (sub_id, e) ↦ ground (
          arith,
          bind-IsEventless (retrieve provider sub_id) (λ sub. sync provider times sub at id)
              (λ store. refl) (λ sub. sync-IsEventless sub at id) store,
        )
      ]

  pub dispatch-IsEventless :
      (event : StripeEvent) → IsEventless (dispatch_supported_event provider times event)
  unfolding dispatch_supported_event
  dispatch-IsEventless event store = by_object event.object
    where
      by_object :
          (object : EventObject)
          → (dispatch_supported_event provider times
              (record event { object = object })
              store).1.events
            ≡ store.events
      by_object (EventObject.checkout_session_completed x) =
          completed-IsEventless x (event.created * 1000) event.id store
      by_object (EventObject.checkout_session_expired x) = expired-IsEventless x store
      by_object (EventObject.subscription_created x) =
          changed-IsEventless x (event.created * 1000) event.id store
      by_object (EventObject.subscription_updated x) =
          changed-IsEventless x (event.created * 1000) event.id store
      by_object (EventObject.subscription_deleted x) =
          deleted-IsEventless x (event.created * 1000) event.id store
      by_object (EventObject.invoice_payment_failed x) =
          failed-IsEventless x (event.created * 1000) event.id store
      by_object EventObject.unsupported = refl
