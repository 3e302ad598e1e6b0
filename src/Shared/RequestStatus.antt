-- ===== src/Shared/RequestStatus.antt =====
-- packages/shared/src/request-status.ts: the life of a request as a function of the time since the
-- buyer's last activity. A Date is its milliseconds. `-` stops at 0: an idle time that would be
-- negative is 0, which passes the same tests, and a cutoff is exact from ten days after the epoch.
pub mod Aging
pub mod Sorting
use buyseekk.Prelude.{
  ℕ, ◌+◌, ◌-◌, ◌*◌, Bool, true, false, Option, none, some, List, [], ◌∷◌, ltb, leb, ◌==◌, not, ◌||◌,
  is_some, if◌then◌else◌,
}
use buyseekk.Shared.Limits.{
  day_ms, hour_ms, request_confirmation_days, request_inactive_after_confirm_hours,
  request_archive_days,
}

pub data StoredRequestStatus : Type 0 where
  activa negociando cerrada : StoredRequestStatus

pub data EffectiveRequestStatus : Type 0 where
  activa negociando pausada pendiente_de_confirmacion inactiva cerrada archivada :
      EffectiveRequestStatus

pub record RequestLifecycleInput : Type 0 where
  pub status : StoredRequestStatus
  pub last_buyer_activity_at : ℕ
  pub paused_at : Option ℕ
  pub active : Option Bool

unfoldable pub confirmation_cutoff : ℕ → ℕ
confirmation_cutoff now = now - request_confirmation_days * day_ms

unfoldable pub inactive_after_confirm_cutoff : ℕ → ℕ
inactive_after_confirm_cutoff now =
    now - request_confirmation_days * day_ms - request_inactive_after_confirm_hours * hour_ms

unfoldable pub archive_cutoff : ℕ → ℕ
archive_cutoff now = now - request_archive_days * day_ms

unfoldable pub archived_buyer_activity_at : ℕ → ℕ
unfolding archive_cutoff
archived_buyer_activity_at now = archive_cutoff now - hour_ms

unfoldable pub idle_ms_since : ℕ → ℕ → ℕ
idle_ms_since last now = now - last

abbrev pub is_cerrada : StoredRequestStatus → Bool
is_cerrada StoredRequestStatus.cerrada = true
is_cerrada _ = false

abbrev pub is_negociando : StoredRequestStatus → Bool
is_negociando StoredRequestStatus.negociando = true
is_negociando _ = false

abbrev pub is_activa : StoredRequestStatus → Bool
is_activa StoredRequestStatus.activa = true
is_activa _ = false

unfoldable pub effective_request_status : RequestLifecycleInput → ℕ → EffectiveRequestStatus
unfolding idle_ms_since
effective_request_status req now =
    let idle_ms = idle_ms_since req.last_buyer_activity_at now in
    if is_cerrada req.status
    then EffectiveRequestStatus.cerrada
    else if is_some req.paused_at
    then EffectiveRequestStatus.pausada
    else if leb (request_archive_days * day_ms) idle_ms
    then EffectiveRequestStatus.archivada
    else if leb
        (request_confirmation_days * day_ms + request_inactive_after_confirm_hours * hour_ms)
        idle_ms
    then EffectiveRequestStatus.inactiva
    else if leb (request_confirmation_days * day_ms) idle_ms
    then EffectiveRequestStatus.pendiente_de_confirmacion
    else if is_negociando req.status
    then EffectiveRequestStatus.negociando
    else EffectiveRequestStatus.activa

-- `req.active === false`; an absent field counts as active.
abbrev pub is_inactive : Option Bool → Bool
is_inactive (some false) = true
is_inactive _ = false

abbrev pub shown_to_sellers : EffectiveRequestStatus → Bool
shown_to_sellers EffectiveRequestStatus.activa = true
shown_to_sellers EffectiveRequestStatus.negociando = true
shown_to_sellers EffectiveRequestStatus.inactiva = true
shown_to_sellers _ = false

abbrev pub open_to_offers : EffectiveRequestStatus → Bool
open_to_offers EffectiveRequestStatus.activa = true
open_to_offers EffectiveRequestStatus.negociando = true
open_to_offers _ = false

unfoldable pub is_visible_to_sellers : RequestLifecycleInput → ℕ → Bool
unfolding effective_request_status
is_visible_to_sellers req now =
    if is_inactive req.active then false else shown_to_sellers (effective_request_status req now)

unfoldable pub is_offerable : RequestLifecycleInput → ℕ → Bool
unfolding effective_request_status
is_offerable req now =
    if is_inactive req.active then false else open_to_offers (effective_request_status req now)

unfoldable pub seller_list_priority : EffectiveRequestStatus → ℕ
seller_list_priority EffectiveRequestStatus.activa = 0
seller_list_priority EffectiveRequestStatus.negociando = 0
seller_list_priority EffectiveRequestStatus.inactiva = 1
seller_list_priority _ = 2

unfoldable pub saved_list_priority : EffectiveRequestStatus → ℕ
saved_list_priority EffectiveRequestStatus.activa = 0
saved_list_priority EffectiveRequestStatus.negociando = 1
saved_list_priority EffectiveRequestStatus.inactiva = 2
saved_list_priority EffectiveRequestStatus.pendiente_de_confirmacion = 2
saved_list_priority _ = 3

-- The comparators' `cmp a b <= 0`: the lower tier first, then the later activity.
abbrev pub not_after : ℕ → ℕ → ℕ → ℕ → Bool
not_after tier_a last_a tier_b last_b =
    if not (tier_a == tier_b) then ltb tier_a tier_b else leb last_b last_a

module _ {A : Type 0} where
  -- `Array.prototype.sort` is stable: an element is put before the first that it does not follow.
  unfoldable pub insert_by : (A → A → Bool) → A → List A → List A
  insert_by le x [] = x ∷ []
  insert_by le x (y ∷ ys) = let rest = insert_by le x ys in if le x y then x ∷ y ∷ ys else y ∷ rest

  unfoldable pub sort_by : (A → A → Bool) → List A → List A
  sort_by le [] = []
  sort_by le (x ∷ xs) = insert_by le x (sort_by le xs)

abbrev pub by_priority :
    (EffectiveRequestStatus → ℕ) → ℕ → RequestLifecycleInput → RequestLifecycleInput → Bool
by_priority priority now a b =
    not_after (priority (effective_request_status a now)) a.last_buyer_activity_at
      (priority (effective_request_status b now)) b.last_buyer_activity_at

unfoldable pub sort_saved_requests_for_seller :
    List RequestLifecycleInput → ℕ → List RequestLifecycleInput
sort_saved_requests_for_seller items now = sort_by (by_priority saved_list_priority now) items

unfoldable pub sort_requests_for_seller :
    List RequestLifecycleInput → ℕ → List RequestLifecycleInput
sort_requests_for_seller items now = sort_by (by_priority seller_list_priority now) items
