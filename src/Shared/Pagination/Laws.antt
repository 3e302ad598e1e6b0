-- ===== src/Shared/Pagination/Laws.antt =====
-- What the page computations promise to a caller that walks through the pages.
use native.Mathlib.Nat.{div-mul-le_self, lt-div-mul-add}
use buyseekk.Prelude.{
  ℕ, ◌+◌, ◌-◌, ◌*◌, ◌/◌, ◌≤◌, ◌<◌, ◌≡◌, ◌↔◌, true, none, some, Option, List, arith, min, max, refl,
  or_else,
}
use buyseekk.Shared.Limits.{max_page_size, default_page_size}
use buyseekk.Shared.Pagination.{
  ceil_div, max_messages_limit, default_messages_limit, parse_pagination, to_paginated_result,
  to_paginated_response, resolve_messages_pagination,
}

-- `ceil_div a b` is the least number of pages of `b` items that hold `a` items.
ceil_div-bounds : (a b : ℕ) → 0 < b → (a ≤ ceil_div a b * b) × (ceil_div a b * b < a + b)
ceil_div-bounds a b h =
    let low = div-mul-le_self (a + b - 1) b in
    let high = lt-div-mul-add {a = a + b - 1} h in (omega arith, omega arith)

lt-ceil_div_iff : (p a b : ℕ) → 0 < b → (p < ceil_div a b) ↔ (p * b < a)
lt-ceil_div_iff p a b h =
    let (low, high) = ceil_div-bounds a b h in (λ k. grind arith, λ k. grind arith)

limit_pos : (page limit : Option ℕ) → 0 < (parse_pagination page limit).limit
unfolding parse_pagination
limit_pos page limit = omega arith

page_of_row :
    (i total n : ℕ)
    → 0 < n
    → i < total
    → ((max 1 (i / n + 1) - 1) * n ≤ i)
      × (i < (max 1 (i / n + 1) - 1) * n + n)
      × (max 1 (i / n + 1) ≤ max 1 (ceil_div total n))
page_of_row i total n pos h =
    let low = div-mul-le_self i n in
    let high = lt-div-mul-add {a = i} pos in
    let last = (lt-ceil_div_iff (i / n) total n pos).1 (omega arith) in
    let page : max 1 (i / n + 1) - 1 ≡ i / n = omega arith in
    (rw page low, rw page high, omega arith)

-- The first row of any page up to the last lies within the rows, and the last page ends them.
window :
    (total n p : ℕ)
    → 0 < n
    → (total ≤ (max 1 (ceil_div total n) - 1) * n + n)
      × (0 < total → (min p (max 1 (ceil_div total n)) - 1) * n < total)
window total n p pos =
    let (low, high) = ceil_div-bounds total n pos in
    (grind arith, λ t. grind (arith, (lt-ceil_div_iff 0 total n pos).1))

-- Whatever the query asks for, a page has at least one and at most fifty rows; and each of the
-- `total` rows stands on the page that its position gives, whose number is among those reported.
pub parse_pagination-covers :
    {A : Type 0} (items : List A) (limit : Option ℕ) (i total : ℕ)
    → i < total
    → let size = (parse_pagination none limit).limit in
      let r = parse_pagination (some (i / size + 1)) limit in
      (0 < size)
      × (size ≤ max_page_size)
      × (r.limit ≡ size)
      × (r.skip ≤ i)
      × (i < r.skip + r.limit)
      × (r.page ≤ (to_paginated_result items total r.page r.limit).total_pages)
unfolding parse_pagination to_paginated_result
parse_pagination-covers items limit i total h =
    let n = min max_page_size (max 1 (or_else limit default_page_size)) in
    let pos : 0 < n = omega arith in
    let (low, high, page) = page_of_row i total n pos h in (pos, omega arith, refl, low, high, page)

-- There is a next page exactly if some row comes after this page.
pub to_paginated_response-has_next :
    {A : Type 0} (items : List A) (total page limit : ℕ)
    → 0 < limit
    → ((to_paginated_response items total page limit).has_next_page ≡ true) ↔ (page * limit < total)
unfolding to_paginated_response
to_paginated_response-has_next items total page limit h =
    let step = lt-ceil_div_iff page total limit h in grind (arith, step)

-- A chat opened with no page shows its newest message: the window is not empty unless the chat is,
-- and it ends at the last message or after it. With any page, the window starts within the chat.
pub resolve_messages_pagination-window :
    (total : ℕ) (page limit : Option ℕ)
    → let last = resolve_messages_pagination total none limit in
      let r = resolve_messages_pagination total page limit in
      (0 < r.limit)
      × (r.limit ≤ max_messages_limit)
      × (total ≤ last.skip + last.limit)
      × (0 < total → last.skip < total)
      × (0 < total → r.skip < total)
unfolding resolve_messages_pagination
resolve_messages_pagination-window total page limit =
    let n = min max_messages_limit (max 1 (or_else limit default_messages_limit)) in
    let pos : 0 < n = omega arith in
    let pages = max 1 (ceil_div total n) in
    let open_end = window total n (max 1 pages) pos in
    let same : min (max 1 pages) pages ≡ pages = omega arith in
    (
      pos,
      omega arith,
      rw same open_end.0,
      open_end.1,
      (window total n (max 1 (or_else page pages)) pos).1,
    )
