-- ===== src/Requests/Paging.antt =====
-- Queries with an order and a page, and `paginateSellerMarketplaceIds` of requests.service.ts.
-- `ORDER BY` leaves the order of equal keys open, from query to query: `ties` is the order that the database takes
-- for one query.
pub mod Order
pub mod Laws
use buyseekk.Prelude.{
  ℕ, suc, ◌-◌, Bool, List, [], ◌∷◌, ◌++◌, map, ltb, leb, ◌&&◌, ◌||◌, ◌==◌, length, take, drop, min,
  if◌then◌else◌,
}
use buyseekk.Shared.RequestStatus.{
  sort_by, confirmation_cutoff, inactive_after_confirm_cutoff, archive_cutoff,
}
use buyseekk.Db.Schema.{Request}

module _ {A : Type 0} where
  -- The rows that fit, with their ids.
  unfoldable pub ids_where : (A → Bool) → ℕ → List A → List (ℕ × A)
  ids_where fits i [] = []
  ids_where fits i (x ∷ xs) =
      let rest = ids_where fits (suc i) xs in if fits x then (i, x) ∷ rest else rest

  -- `a` may stand before `b`.
  abbrev pub not_before : (ℕ → ℕ → Bool) → (A → ℕ) → ℕ × A → ℕ × A → Bool
  not_before ties key a b = ltb (key b.1) (key a.1) || (key a.1 == key b.1 && ties a.0 b.0)

  -- `orderBy: { key: 'desc' }`
  unfoldable pub order_desc : (ℕ → ℕ → Bool) → (A → ℕ) → List (ℕ × A) → List (ℕ × A)
  order_desc ties key rows = sort_by (not_before ties key) rows

  -- `findMany({ where, select: { id }, orderBy, skip, take })`
  unfoldable pub find_ids : (ℕ → ℕ → Bool) → (A → Bool) → (A → ℕ) → List A → List ℕ
  unfolding ids_where order_desc
  find_ids ties fits key rows = map (λ e. e.0) (order_desc ties key (ids_where fits 0 rows))

unfoldable pub tier0_where : (Request → Bool) → ℕ → Request → Bool
unfolding confirmation_cutoff
tier0_where fits now r = fits r && leb (confirmation_cutoff now) r.last_buyer_activity_at

unfoldable pub tier1_where : (Request → Bool) → ℕ → Request → Bool
unfolding inactive_after_confirm_cutoff archive_cutoff
tier1_where fits now r =
    fits r
    && ltb r.last_buyer_activity_at (inactive_after_confirm_cutoff now)
    && leb (archive_cutoff now) r.last_buyer_activity_at

-- The branches of `paginateSellerMarketplaceIds` over the results of its two ordered queries.
unfoldable pub page_of_tiers : List ℕ → List ℕ → ℕ → ℕ → List ℕ
page_of_tiers tier0 tier1 skip limit =
    let tier0_count = length tier0 in
    if ltb skip tier0_count
    then (let take0 = min limit (tier0_count - skip) in
        let ids = take take0 (drop skip tier0) in
        let remaining = limit - length ids in
        if ltb 0 remaining then ids ++ take remaining tier1 else ids)
    else take limit (drop (skip - tier0_count) tier1)

-- `fits` is the `where` without its bound on the activity, which both queries replace. Each query has its own order of
-- equal keys.
unfoldable pub paginate_seller_marketplace_ids :
    (ties0 ties1 : ℕ → ℕ → Bool) → (Request → Bool) → ℕ → ℕ → ℕ → List Request → List ℕ
unfolding page_of_tiers
paginate_seller_marketplace_ids ties0 ties1 fits skip limit now rows =
    page_of_tiers (find_ids ties0 (tier0_where fits now) (λ r. r.last_buyer_activity_at) rows)
      (find_ids ties1 (tier1_where fits now) (λ r. r.last_buyer_activity_at) rows) skip limit
