-- ===== src/Requests/Visibility.antt =====
-- apps/api/src/requests/request-status.ts: the filters by which the database selects requests, and
-- the input of the rules in packages/shared.
pub mod Laws
use buyseekk.Prelude.{
  ℕ, Bool, true, false, Option, none, some, ◌&&◌, ◌||◌, not, is_some, is_none, leb, ltb,
}
use buyseekk.Shared.RequestStatus.{
  RequestLifecycleInput, is_cerrada, confirmation_cutoff, inactive_after_confirm_cutoff,
  archive_cutoff,
}
use buyseekk.Db.Schema.{Country, Request}

abbrev pub same_country : Country → Country → Bool
same_country Country.ar Country.ar = true
same_country Country.us Country.us = true
same_country _ _ = false

unfoldable pub to_lifecycle_input : Request → RequestLifecycleInput
to_lifecycle_input req = record {
  status = req.status;
  last_buyer_activity_at = req.last_buyer_activity_at;
  paused_at = req.paused_at;
  active = some req.active;
}

-- The `OR` of `visibleToSellersWhere`: recently active, or past the confirmation period.
unfoldable pub visible_or : ℕ → Request → Bool
unfolding confirmation_cutoff inactive_after_confirm_cutoff
visible_or now r =
    leb (confirmation_cutoff now) r.last_buyer_activity_at
    || ltb r.last_buyer_activity_at (inactive_after_confirm_cutoff now)

-- The `NOT` of `visibleToSellersWhere`: not within the confirmation period.
unfoldable pub visible_not : ℕ → Request → Bool
unfolding confirmation_cutoff inactive_after_confirm_cutoff
visible_not now r = not (
    ltb r.last_buyer_activity_at (confirmation_cutoff now)
    && leb (inactive_after_confirm_cutoff now) r.last_buyer_activity_at)

-- The other conditions of `visibleToSellersWhere`.
unfoldable pub visible_base : ℕ → Request → Bool
unfolding archive_cutoff
visible_base now r =
    not (is_cerrada r.status)
    && is_none r.paused_at
    && leb (archive_cutoff now) r.last_buyer_activity_at

unfoldable pub visible_to_sellers_where : ℕ → Request → Bool
unfolding visible_base visible_or visible_not
visible_to_sellers_where now r = visible_base now r && visible_or now r && visible_not now r

unfoldable pub lifecycle_notification_scan_where : ℕ → Request → Bool
unfolding confirmation_cutoff inactive_after_confirm_cutoff archive_cutoff
lifecycle_notification_scan_where now r =
    r.active
    && not (is_cerrada r.status)
    && is_none r.paused_at
    && ((leb r.last_buyer_activity_at (confirmation_cutoff now)
          && ltb (inactive_after_confirm_cutoff now) r.last_buyer_activity_at)
        || (leb r.last_buyer_activity_at (inactive_after_confirm_cutoff now)
            && ltb (archive_cutoff now) r.last_buyer_activity_at))

unfoldable pub counts_toward_buyer_limit_where : ℕ → Request → Bool
unfolding visible_to_sellers_where
counts_toward_buyer_limit_where now r =
    r.active
    && ((is_some r.paused_at && not (is_cerrada r.status)) || visible_to_sellers_where now r)
