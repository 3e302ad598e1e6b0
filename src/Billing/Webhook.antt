-- ===== src/Billing/Webhook.antt =====
-- The handler of apps/api/src/billing/stripe-webhook.service.ts: an event is claimed, dispatched by
-- its type and marked as processed. What the Stripe SDK is asked is a parameter.
pub mod Ledger
pub mod Process
pub mod Replay
pub mod Ordering
use buyseekk.Prelude.{
  ℕ, ◌*◌, Bool, true, false, Option, none, some, List, Text, text_eq, update_where, not,
  if◌then◌else◌,
}
use buyseekk.Shared.Effect.{Outcome, ok, err, pure, raise, gets, write, ◌>>=◌, ◌>>◌}
use buyseekk.Billing.Store.{
  BillingCheckoutStatus, BillingCheckoutSession, Store, BillingError, Action,
}
use buyseekk.Billing.Mapper.{
  Expandable, StripeStatus, StripeSubscription, NormalizedStripeSubscription, filled, expandable_id,
  normalize_stripe_subscription,
}
use buyseekk.Billing.Claim.{ClaimResult, claim_billing_event, mark_billing_event_processed}
use buyseekk.Billing.Sync.{SyncResult, sync_stripe_subscription}

-- `retrieveSubscription` of the provider, and the text of a user's id.
pub record Provider : Type 0 where
  pub retrieve_subscription : Text → Outcome BillingError NormalizedStripeSubscription
  pub cuid : ℕ → Text

pub record CheckoutSession : Type 0 where
  pub id : Text
  pub mode_is_subscription : Bool
  pub customer : Expandable
  pub subscription : Expandable

pub record Invoice : Type 0 where
  pub subscription : Expandable
  pub parent_subscription : Expandable

-- An event's type and its object; the types that are not supported are one.
pub data EventObject : Type 0 where
  checkout_session_completed checkout_session_expired : CheckoutSession → EventObject
  subscription_created subscription_updated subscription_deleted : StripeSubscription → EventObject
  invoice_payment_failed : Invoice → EventObject
  unsupported : EventObject

pub record StripeEvent : Type 0 where
  pub id : Text
  pub created : ℕ
  pub object : EventObject

-- The clock at the claim, at the synchronisation and at the mark.
pub record Times : Type 0 where
  pub claimed_at : ℕ
  pub synced_at : ℕ
  pub processed_at : ℕ

unfoldable pub is_supported_type : EventObject → Bool
is_supported_type EventObject.unsupported = false
is_supported_type _ = true

abbrev has_session : Text → BillingCheckoutSession → Bool
has_session id s = elim s.provider_session_id [ none ↦ false | some t ↦ text_eq t id ]

unfoldable pub mark_checkout_session_status : Text → BillingCheckoutStatus → Action (Unit {0})
mark_checkout_session_status id status = write λ store. record store {
  checkouts = update_where (has_session id) (λ s. record s { status = status }) store.checkouts;
}

abbrev pub sync : Provider → Times → NormalizedStripeSubscription → ℕ → Text → Action (Unit {0})
sync provider times sub at id store =
    (ok tt, (sync_stripe_subscription provider.cuid times.synced_at sub at id store).1)

abbrev pub retrieve : Provider → Text → Action NormalizedStripeSubscription
retrieve provider id store = (provider.retrieve_subscription id, store)

-- `raw.subscription` where it is a text or an object with an id.
abbrev direct_id : Expandable → Option Text
direct_id Expandable.missing = none
direct_id (Expandable.id_of t) = some t
direct_id (Expandable.expanded none) = none
direct_id (Expandable.expanded (some t)) = filled t

abbrev or_parent : Option Text → Option Text → Option Text
or_parent none parent = parent
or_parent (some t) _ = some t

unfoldable pub extract_invoice_subscription_id : Invoice → Option Text
extract_invoice_subscription_id invoice =
    or_parent (direct_id invoice.subscription) (direct_id invoice.parent_subscription)

-- `if (!customerId || !subscriptionId) return`
abbrev pub sync_retrieved :
    Provider → Times → ℕ → Text → Option Text → Option Text → Action (Unit {0})
sync_retrieved provider times at id none _ = pure tt
sync_retrieved provider times at id (some _) none = pure tt
sync_retrieved provider times at id (some _) (some sub_id) = do
  sub ← retrieve provider sub_id
  sync provider times sub at id

unfoldable pub handle_checkout_session_completed :
    Provider → Times → CheckoutSession → ℕ → Text → Action (Unit {0})
unfolding mark_checkout_session_status
handle_checkout_session_completed provider times session at id = do
  mark_checkout_session_status session.id BillingCheckoutStatus.complete
  elim session.mode_is_subscription [
    | true ↦
        sync_retrieved provider times at id (expandable_id session.customer)
          (expandable_id session.subscription)
    | false ↦ pure tt
  ]

unfoldable pub handle_checkout_session_expired : CheckoutSession → Action (Unit {0})
unfolding mark_checkout_session_status
handle_checkout_session_expired session =
    mark_checkout_session_status session.id BillingCheckoutStatus.expired

unfoldable pub handle_subscription_changed :
    Provider → Times → StripeSubscription → ℕ → Text → Action (Unit {0})
handle_subscription_changed provider times sub at id = do
  normalized ← normalize_stripe_subscription sub
  sync provider times normalized at id

unfoldable pub handle_subscription_deleted :
    Provider → Times → StripeSubscription → ℕ → Text → Action (Unit {0})
handle_subscription_deleted provider times sub at id = do
  normalized ← normalize_stripe_subscription sub
  sync provider times (record normalized { status = StripeStatus.canceled }) at id

abbrev pub filled_id : Option Text → Option Text
filled_id none = none
filled_id (some t) = filled t

unfoldable pub handle_invoice_payment_failed :
    Provider → Times → Invoice → ℕ → Text → Action (Unit {0})
unfolding extract_invoice_subscription_id
handle_invoice_payment_failed provider times invoice at id =
    elim (filled_id (extract_invoice_subscription_id invoice)) [
      | none ↦ pure tt
      | some sub_id ↦ retrieve provider sub_id >>= λ sub. sync provider times sub at id
    ]

unfoldable pub dispatch_supported_event : Provider → Times → StripeEvent → Action (Unit {0})
unfolding handle_checkout_session_completed handle_checkout_session_expired
    handle_subscription_changed handle_subscription_deleted handle_invoice_payment_failed
dispatch_supported_event provider times event =
    let at = event.created * 1000 in
    elim event.object [
      | EventObject.checkout_session_completed session ↦
          handle_checkout_session_completed provider times session at event.id
      | EventObject.checkout_session_expired session ↦ handle_checkout_session_expired session
      | EventObject.subscription_created sub ↦
          handle_subscription_changed provider times sub at event.id
      | EventObject.subscription_updated sub ↦
          handle_subscription_changed provider times sub at event.id
      | EventObject.subscription_deleted sub ↦
          handle_subscription_deleted provider times sub at event.id
      | EventObject.invoice_payment_failed invoice ↦
          handle_invoice_payment_failed provider times invoice at event.id
      | EventObject.unsupported ↦ pure tt
    ]

-- What the controller answers.
pub data HandleResult : Type 0 where
  received received_duplicate ignored_unsupported : HandleResult

-- What follows a claim that was won.
unfoldable pub process_event : Provider → Times → StripeEvent → Action HandleResult
unfolding is_supported_type
process_event provider times event = elim (is_supported_type event.object) [
  | true ↦
      dispatch_supported_event provider times event
      >> (mark_billing_event_processed times.processed_at event.id >> pure HandleResult.received)
  | false ↦
      mark_billing_event_processed times.processed_at event.id
      >> pure HandleResult.ignored_unsupported
]

unfoldable pub handle_event : Provider → Times → StripeEvent → Action HandleResult
unfolding process_event
handle_event provider times event store =
    let (claim, store') = claim_billing_event times.claimed_at event.id store in
    elim claim [
      | ClaimResult.duplicate ↦ (ok HandleResult.received_duplicate, store')
      | ClaimResult.in_progress ↦ (err BillingError.webhook_in_progress, store')
      | ClaimResult.claimed ↦ process_event provider times event store'
    ]
