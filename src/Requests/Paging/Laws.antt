-- ===== src/Requests/Paging/Laws.antt =====
-- The two queries of the seller's marketplace make one list.
use mathlib.Core.List.{append-nil, Perm}
use buyseekk.Prelude.{
  ℕ, zero, suc, ◌-◌, ◌≤◌, ◌<◌, ◌≡◌, refl, ◌≢◌, ◌&&◌, ◌||◌, leb, map, false, sym, ◌∙◌, ap, Bool, inl,
  inr, List, [], ◌∷◌, ◌++◌, ltb, length, take, drop, min, Bool-cases, length-take, length-drop,
  arith, ltb→lt,
}
use buyseekk.Db.Schema.{Request}
use buyseekk.Requests.Paging.{
  ids_where, find_ids, tier0_where, tier1_where, page_of_tiers, paginate_seller_marketplace_ids,
}
use buyseekk.Requests.Paging.Order.{find_ids-ties, find_ids-Perm}
use buyseekk.Requests.Visibility.{visible_or}
use buyseekk.Shared.RequestStatus.{
  archive_cutoff, confirmation_cutoff, inactive_after_confirm_cutoff,
}
use buyseekk.Shared.RequestStatus.Sorting.{IsOrdered}

module _ {A : Type 0} where
  take-append : (n : ℕ) (xs ys : List A) → take n (xs ++ ys) ≡ take n xs ++ take (n - length xs) ys
  take-append zero xs ys = let e : 0 - length xs ≡ 0 = omega arith in rw e
  take-append (suc n) [] ys = let e : suc n - 0 ≡ suc n = omega arith in rw e
  take-append (suc n) (x ∷ xs) ys =
      let e : suc n - suc (length xs) ≡ n - length xs = omega arith in
      rw e (ap (λ r. x ∷ r) (take-append n xs ys))

  drop-append_lt : (n : ℕ) (xs ys : List A) → n ≤ length xs → drop n (xs ++ ys) ≡ drop n xs ++ ys
  drop-append_lt zero xs ys h = refl
  drop-append_lt (suc n) [] ys h = elim h [ ]
  drop-append_lt (suc n) (x ∷ xs) ys h = drop-append_lt n xs ys (omega arith)

  drop-append_ge :
      (n : ℕ) (xs ys : List A) → length xs ≤ n → drop n (xs ++ ys) ≡ drop (n - length xs) ys
  drop-append_ge n [] ys h = let e : n - 0 ≡ n = omega arith in rw e
  drop-append_ge zero (x ∷ xs) ys h = elim h [ ]
  drop-append_ge (suc n) (x ∷ xs) ys h =
      let e : suc n - suc (length xs) ≡ n - length xs = omega arith in
      rw e (drop-append_ge n xs ys (omega arith))

  take-min : (n : ℕ) (xs : List A) → take (min n (length xs)) xs ≡ take n xs
  take-min zero xs = let e : min 0 (length xs) ≡ 0 = omega arith in rw e
  take-min (suc n) [] = let e : min (suc n) 0 ≡ 0 = omega arith in rw e
  take-min (suc n) (x ∷ xs) =
      let e : min (suc n) (suc (length xs)) ≡ suc (min n (length xs)) = omega arith in
      rw e (ap (λ r. x ∷ r) (take-min n xs))

-- A page that begins among the recently active requests.
page_in_tier0 :
    (tier0 tier1 : List ℕ) (skip limit : ℕ)
    → skip < length tier0
    → let ids = take (min limit (length tier0 - skip)) (drop skip tier0) in
      let remaining = limit - length ids in
      ((0 < remaining) → ids ++ take remaining tier1 ≡ take limit (drop skip (tier0 ++ tier1)))
      × ((remaining ≡ 0) → ids ≡ take limit (drop skip (tier0 ++ tier1)))
page_in_tier0 tier0 tier1 skip limit h =
    let rows = drop skip tier0 in
    let size : length tier0 - skip ≡ length rows = omega (arith, length-drop skip tier0) in
    let left : limit - length (take limit rows) ≡ limit - length rows =
      omega (arith, length-take limit rows) in
    let whole : take limit rows ++ take (limit - length rows) tier1
        ≡ take limit (drop skip (tier0 ++ tier1)) =
      rw (drop-append_lt skip tier0 tier1 (omega arith)) (rw (take-append limit rows tier1)) in
    rw (size, take-min limit rows, left)
      ((λ _. whole), λ none_left. sym (append-nil (take limit rows)) ∙ (rw none_left at whole))

page_of_tiers-slice :
    (tier0 tier1 : List ℕ) (skip limit : ℕ)
    → page_of_tiers tier0 tier1 skip limit ≡ take limit (drop skip (tier0 ++ tier1))
unfolding page_of_tiers
page_of_tiers-slice tier0 tier1 skip limit = elim (Bool-cases (ltb skip (length tier0))) [
  | inl early ↦
      let (more, full) = page_in_tier0 tier0 tier1 skip limit (ltb→lt _ _ early) in
      rw early (ground (arith, more, full))
  | inr late ↦ rw late (rw (drop-append_ge skip tier0 tier1 (ground arith)) refl)
]

abbrev pub last_activity : Request → ℕ
last_activity r = r.last_buyer_activity_at

-- What is shown of the requests that fit: not yet archived, and recently active or past the confirmation period.
abbrev pub shown_where : (Request → Bool) → ℕ → Request → Bool
shown_where fits now r =
    fits r && leb (archive_cutoff now) r.last_buyer_activity_at && visible_or now r

tiers_shown :
    (fits : Request → Bool) (now : ℕ) (r : Request)
    → (shown_where fits now r ≡ (tier0_where fits now r || tier1_where fits now r))
      × ((tier0_where fits now r && tier1_where fits now r) ≡ false)
unfolding tier0_where tier1_where visible_or archive_cutoff confirmation_cutoff
    inactive_after_confirm_cutoff
tiers_shown fits now r = ground arith

-- Where no two requests have the same last activity, every page of the seller's marketplace at one time, in
-- whatever order the database takes equal keys for each of its queries, is the slice that `skip` and
-- `limit` cut from one and the same list: the recently active requests that fit, the latest first, and then
-- the inactive ones, the latest first. In that list stands, once each, every request that fits, is not past the
-- archive cutoff and passes the `OR` of `visibleToSellersWhere`, and no other one: so the pages neither
-- repeat nor leave out a request.
pub paginate_seller_marketplace_ids-slice :
    (ties ties0 ties1 : ℕ → ℕ → Bool) (fits : Request → Bool) (skip limit now : ℕ)
    (rows : List Request)
    → IsOrdered (λ r s. last_activity r ≢ last_activity s) rows
    → let recent = find_ids ties (tier0_where fits now) last_activity rows in
      let inactive = find_ids ties (tier1_where fits now) last_activity rows in
      (paginate_seller_marketplace_ids ties0 ties1 fits skip limit now rows
        ≡ take limit (drop skip (recent ++ inactive)))
      × Perm (recent ++ inactive) (map (λ e. e.0) (ids_where (shown_where fits now) 0 rows))
unfolding paginate_seller_marketplace_ids
paginate_seller_marketplace_ids-slice ties ties0 ties1 fits skip limit now rows apart = (
  rw
      (
        find_ids-ties ties0 ties (tier0_where fits now) last_activity rows apart,
        find_ids-ties ties1 ties (tier1_where fits now) last_activity rows apart,
      )
      (page_of_tiers-slice (find_ids ties (tier0_where fits now) last_activity rows)
        (find_ids ties (tier1_where fits now) last_activity rows) skip limit),
  find_ids-Perm ties (tier0_where fits now) (tier1_where fits now) (shown_where fits now)
      last_activity (tiers_shown fits now) rows,
)
