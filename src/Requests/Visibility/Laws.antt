-- ===== src/Requests/Visibility/Laws.antt =====
-- The database's filters against the rules of packages/shared.
use buyseekk.Prelude.{
  ℕ, ◌-◌, ◌*◌, ◌≤◌, ◌≡◌, ◌≢◌, ◌↔◌, ◌⊎◌, true, none, some, ◌&&◌, ◌==◌, not, arith,
}
use buyseekk.Shared.Limits.{day_ms}
use buyseekk.Shared.RequestStatus.{
  StoredRequestStatus, EffectiveRequestStatus, effective_request_status, is_visible_to_sellers,
  is_offerable,
}
use buyseekk.Db.Schema.{Request}
use buyseekk.Requests.Visibility.{
  to_lifecycle_input, visible_or, visible_base, visible_to_sellers_where,
  lifecycle_notification_scan_where, counts_toward_buyer_limit_where,
}

-- The time since the buyer's last activity.
abbrev pub idle : Request → ℕ → ℕ
idle r now = now - r.last_buyer_activity_at

-- From ten days after the epoch on, and but for the three instants at which a period ends exactly,
-- the marketplace query selects an active request exactly if the shared rule shows it to sellers.
pub visible_to_sellers_where_iff :
    (r : Request) (now : ℕ)
    → 10 * day_ms ≤ now
    → r.active ≡ true
    → idle r now ≢ 7 * day_ms
    → idle r now ≢ 8 * day_ms
    → idle r now ≢ 10 * day_ms
    → visible_to_sellers_where now r ≡ is_visible_to_sellers (to_lifecycle_input r) now
unfolding visible_to_sellers_where is_visible_to_sellers to_lifecycle_input
visible_to_sellers_where_iff r now late act a b c = ground arith

-- From ten days after the epoch on, at exactly seven, eight and ten days without activity, the query and the
-- rule disagree on every active, open and unpaused request: at seven and ten days only the query shows it, at
-- eight days only the rule does.
pub visible_to_sellers_where_boundary :
    (r : Request) (now : ℕ)
    → 10 * day_ms ≤ now
    → r.active ≡ true
    → r.status ≢ StoredRequestStatus.cerrada
    → r.paused_at ≡ none
    → (idle r now ≡ 7 * day_ms) ⊎ (idle r now ≡ 8 * day_ms) ⊎ (idle r now ≡ 10 * day_ms)
    → let after_eight_days = idle r now == 8 * day_ms in
      (visible_to_sellers_where now r ≡ not after_eight_days)
      × (is_visible_to_sellers (to_lifecycle_input r) now ≡ after_eight_days)
unfolding visible_to_sellers_where is_visible_to_sellers to_lifecycle_input
visible_to_sellers_where_boundary r now late act unclosed running at = ground arith

-- `listForSeller` spreads `visibleToSellersWhere()` and then overwrites its `NOT`: nothing is lost,
-- since the `OR` that stays implies the `NOT`.
pub visible_not_redundant :
    (r : Request) (now : ℕ)
    → (visible_base now r && visible_or now r) ≡ visible_to_sellers_where now r
unfolding visible_to_sellers_where
visible_not_redundant r now = ground arith

-- From ten days after the epoch on, the notification scan selects exactly the active requests that
-- await confirmation or are inactive.
pub lifecycle_notification_scan_where_iff :
    (r : Request) (now : ℕ)
    → 10 * day_ms ≤ now
    → (lifecycle_notification_scan_where now r ≡ true) ↔ (
        (r.active ≡ true)
        × let status = effective_request_status (to_lifecycle_input r) now in
          ((status ≡ EffectiveRequestStatus.pendiente_de_confirmacion)
            ⊎ (status ≡ EffectiveRequestStatus.inactiva)))
unfolding lifecycle_notification_scan_where effective_request_status to_lifecycle_input
lifecycle_notification_scan_where_iff r now late = ground arith

-- What may receive a new offer is shown to sellers, and what is shown but may not receive one is
-- inactive.
pub is_offerable-visible :
    (r : Request) (now : ℕ)
    → is_visible_to_sellers (to_lifecycle_input r) now ≡ true
    → (is_offerable (to_lifecycle_input r) now ≡ true)
      ⊎ (effective_request_status (to_lifecycle_input r) now ≡ EffectiveRequestStatus.inactiva)
unfolding is_visible_to_sellers is_offerable to_lifecycle_input
is_offerable-visible r now h = ground arith

-- A request that counts toward the buyer's limit is active and not closed, and pausing it does not
-- free its place.
pub counts_toward_buyer_limit_pause :
    (r : Request) (now at : ℕ)
    → counts_toward_buyer_limit_where now r ≡ true
    → (r.active ≡ true)
      × (r.status ≢ StoredRequestStatus.cerrada)
      × (counts_toward_buyer_limit_where now (record r { paused_at = some at }) ≡ true)
unfolding counts_toward_buyer_limit_where
counts_toward_buyer_limit_pause r now at h = ground arith
