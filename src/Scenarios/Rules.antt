-- ===== src/Scenarios/Rules.antt =====
-- The rules of the shared package and the queries on single rows and numbers.
use buyseekk.Prelude.{
  ℕ, ltb, leb, ◌+◌, ◌*◌, ◌/◌, ◌≤◌, ◌<◌, ◌≡◌, ◌≢◌, ◌↔◌, ◌⊎◌, refl, inr, Bool, true, false, none,
  some, List, [], ◌∷◌, ◌++◌, take, drop, arith, map, select, ◌==◌,
}
use mathlib.Core.List.{Perm}
use buyseekk.Shared.Limits.{day_ms, max_page_size}
use buyseekk.Shared.RequestStatus.{
  StoredRequestStatus, EffectiveRequestStatus, RequestLifecycleInput, effective_request_status,
  is_visible_to_sellers, sort_requests_for_seller, sort_saved_requests_for_seller,
  seller_list_priority, saved_list_priority,
}
use buyseekk.Shared.RequestStatus.Aging.{
  stage, effective_request_status_mono, effective_request_status-windows,
}
use buyseekk.Shared.RequestStatus.Sorting.{IsOrdered, Precedes, sort_requests-IsOrdered}
use buyseekk.Shared.Pagination.{
  parse_pagination, to_paginated_result, resolve_messages_pagination, max_messages_limit,
}
use buyseekk.Shared.Pagination.Laws.{parse_pagination-covers, resolve_messages_pagination-window}
use buyseekk.Shared.Subscription.{
  SubscriptionStatus, SubscriptionEntitlementInput, resolve_plus_entitlement,
}
use buyseekk.Requests.Visibility.{
  to_lifecycle_input, visible_to_sellers_where, lifecycle_notification_scan_where,
}
use buyseekk.Requests.Visibility.Laws.{
  visible_to_sellers_where_iff, visible_to_sellers_where_boundary,
  lifecycle_notification_scan_where_iff,
}
use buyseekk.Db.Schema.{Request, Db}
use buyseekk.Requests.Paging.{
  ids_where, find_ids, tier0_where, tier1_where, paginate_seller_marketplace_ids,
}
use buyseekk.Requests.Paging.Laws.{
  last_activity, shown_where, paginate_seller_marketplace_ids-slice,
}
use buyseekk.Access.{has_plus_entitlement}
use buyseekk.Access.Entitlement.{has_plus_entitlement-all_rows}
use buyseekk.Scenarios.{bike_request, start_db, plain_env}

abbrev open_row : RequestLifecycleInput
open_row = record {
  status = StoredRequestStatus.activa;
  last_buyer_activity_at = 0;
  paused_at = none;
  active = some true;
}

effective_request_status_mono_example :
    stage (effective_request_status open_row (day_ms))
    ≤ stage (effective_request_status open_row (9 * day_ms))
effective_request_status_mono_example =
    effective_request_status_mono open_row day_ms (9 * day_ms) (omega arith)

effective_request_status-windows_example :
    let status = effective_request_status open_row (open_row.last_buyer_activity_at + 9 * day_ms) in
    ((status ≡ EffectiveRequestStatus.pendiente_de_confirmacion)
      ↔ ((7 * day_ms ≤ 9 * day_ms) × (9 * day_ms < 8 * day_ms)))
    × ((status ≡ EffectiveRequestStatus.inactiva)
        ↔ ((8 * day_ms ≤ 9 * day_ms) × (9 * day_ms < 10 * day_ms)))
    × ((status ≡ EffectiveRequestStatus.archivada) ↔ (10 * day_ms ≤ 9 * day_ms))
effective_request_status-windows_example =
    effective_request_status-windows open_row (9 * day_ms) not_closed refl
  where
    not_closed : ¬ (open_row.status ≡ StoredRequestStatus.cerrada)
    not_closed h = cc

abbrev rows : List RequestLifecycleInput
rows = open_row ∷ record open_row { last_buyer_activity_at = 5 } ∷ []

sort_requests-IsOrdered_example :
    (Perm (sort_requests_for_seller rows day_ms) rows
      × IsOrdered (Precedes seller_list_priority day_ms) (sort_requests_for_seller rows day_ms))
    × (Perm (sort_saved_requests_for_seller rows day_ms) rows
        × IsOrdered
            (Precedes saved_list_priority day_ms)
            (sort_saved_requests_for_seller rows day_ms))
sort_requests-IsOrdered_example = sort_requests-IsOrdered rows day_ms

visible_to_sellers_where_iff_example :
    visible_to_sellers_where (20 * day_ms) bike_request
    ≡ is_visible_to_sellers (to_lifecycle_input bike_request) (20 * day_ms)
visible_to_sellers_where_iff_example =
    visible_to_sellers_where_iff bike_request (20 * day_ms) (omega arith) refl (omega arith)
      (omega arith) (omega arith)

visible_to_sellers_where_boundary_example :
    (visible_to_sellers_where (5 + 10 * day_ms) bike_request ≡ true)
    × (is_visible_to_sellers (to_lifecycle_input bike_request) (5 + 10 * day_ms) ≡ false)
visible_to_sellers_where_boundary_example =
    visible_to_sellers_where_boundary bike_request (5 + 10 * day_ms) (omega arith) refl not_closed
      refl (inr (inr (omega arith)))
  where
    not_closed : bike_request.status ≢ StoredRequestStatus.cerrada
    not_closed h = cc

lifecycle_notification_scan_where_iff_example :
    (lifecycle_notification_scan_where (20 * day_ms) bike_request ≡ true) ↔ (
      (bike_request.active ≡ true)
      × let status = effective_request_status (to_lifecycle_input bike_request) (20 * day_ms) in
        ((status ≡ EffectiveRequestStatus.pendiente_de_confirmacion)
          ⊎ (status ≡ EffectiveRequestStatus.inactiva)))
lifecycle_notification_scan_where_iff_example =
    lifecycle_notification_scan_where_iff bike_request (20 * day_ms) (omega arith)

abbrev three_requests : List Request
three_requests = bike_request ∷ bike_request ∷ bike_request ∷ []

abbrev is_shown : Request → Bool
is_shown r = r.active

abbrev request_at : ℕ → Request
request_at last = record bike_request { last_buyer_activity_at = last }

abbrev dated_requests : List Request
dated_requests = request_at 5 ∷ request_at (20 * day_ms) ∷ request_at (12 * day_ms) ∷ []

paginate_seller_marketplace_ids-slice_example :
    let recent = find_ids leb (tier0_where is_shown (20 * day_ms)) last_activity dated_requests in
    let inactive = find_ids leb (tier1_where is_shown (20 * day_ms)) last_activity dated_requests in
    (paginate_seller_marketplace_ids ltb leb is_shown 1 2 (20 * day_ms) dated_requests
      ≡ take 2 (drop 1 (recent ++ inactive)))
    × Perm
        (recent ++ inactive)
        (map (λ e. e.0) (ids_where (shown_where is_shown (20 * day_ms)) 0 dated_requests))
paginate_seller_marketplace_ids-slice_example =
    paginate_seller_marketplace_ids-slice leb ltb leb is_shown 1 2 (20 * day_ms) dated_requests
      ((omega arith, (omega arith, tt)), ((omega arith, tt), (tt, tt)))

parse_pagination-covers_example :
    let size = (parse_pagination none (some 2)).limit in
    let r = parse_pagination (some (4 / size + 1)) (some 2) in
    (0 < size)
    × (size ≤ max_page_size)
    × (r.limit ≡ size)
    × (r.skip ≤ 4)
    × (4 < r.skip + r.limit)
    × (r.page ≤ (to_paginated_result three_requests 5 r.page r.limit).total_pages)
parse_pagination-covers_example = parse_pagination-covers three_requests (some 2) 4 5 (omega arith)

resolve_messages_pagination-window_example :
    let last = resolve_messages_pagination 65 none none in
    let r = resolve_messages_pagination 65 (some 9) none in
    (0 < r.limit)
    × (r.limit ≤ max_messages_limit)
    × (65 ≤ last.skip + last.limit)
    × (0 < 65 → last.skip < 65)
    × (0 < 65 → r.skip < 65)
resolve_messages_pagination-window_example = resolve_messages_pagination-window 65 (some 9) none

abbrev canceled_plan : SubscriptionEntitlementInput
canceled_plan = record { status = SubscriptionStatus.canceled; current_period_end = some 100 }

-- A seller with a canceled subscription that still runs and an unpaid one.
abbrev subscribed_db : Db
subscribed_db = record start_db {
  subscriptions =
      record { user_id = 1; entitlement = canceled_plan }
      ∷ record {
        user_id = 1;
        entitlement = record { status = SubscriptionStatus.unpaid; current_period_end = none };
      }
      ∷ [];
}

has_plus_entitlement-all_rows_example :
    has_plus_entitlement plain_env 1 50 subscribed_db
    ≡ resolve_plus_entitlement false
        (map (λ s. s.entitlement) (select (λ s. s.user_id == 1) subscribed_db.subscriptions))
        50
has_plus_entitlement-all_rows_example = has_plus_entitlement-all_rows plain_env 1 50 subscribed_db
