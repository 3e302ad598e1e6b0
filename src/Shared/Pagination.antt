-- ===== src/Shared/Pagination.antt =====
-- packages/shared/src/pagination.ts, apps/api/src/common/utils/paginated-response.ts and
-- resolveMessagesPagination of apps/api/src/chats/chat-detail.query.dto.ts.
-- Page and limit are natural numbers or absent, as the DTOs' `@IsInt() @Min(1)` leave them.
pub mod Laws
use buyseekk.Prelude.{
  ℕ, ◌+◌, ◌-◌, ◌*◌, ◌/◌, min, max, Bool, Option, List, or_else, ltb, ◌==◌, if◌then◌else◌,
}
use buyseekk.Shared.Limits.{default_page_size, max_page_size}

pub record PageRequest : Type 0 where
  pub page : ℕ
  pub limit : ℕ
  pub skip : ℕ

pub record PaginatedResult (A : Type 0) : Type 0 where
  pub items : List A
  pub total : ℕ
  pub page : ℕ
  pub limit : ℕ
  pub total_pages : ℕ

pub record PaginatedResponse (A : Type 0) : Type 0 where
  pub base : PaginatedResult A
  pub total_pages : ℕ
  pub has_next_page : Bool

-- `Math.ceil(a / b)`, for `b` above 0
abbrev pub ceil_div : ℕ → ℕ → ℕ
ceil_div a b = (a + b - 1) / b

unfoldable pub parse_pagination : Option ℕ → Option ℕ → PageRequest
parse_pagination page limit =
    let safe_page = max 1 (or_else page 1) in
    let safe_limit = min max_page_size (max 1 (or_else limit default_page_size)) in
    record { page = safe_page; limit = safe_limit; skip = (safe_page - 1) * safe_limit }

unfoldable pub to_paginated_result : {A : Type 0} → List A → ℕ → ℕ → ℕ → PaginatedResult A
to_paginated_result items total page limit = record {
  items = items;
  total = total;
  page = page;
  limit = limit;
  total_pages = max 1 (ceil_div total limit);
}

unfoldable pub to_paginated_response : {A : Type 0} → List A → ℕ → ℕ → ℕ → PaginatedResponse A
unfolding to_paginated_result
to_paginated_response items total page limit =
    let total_pages = if total == 0 then 0 else ceil_div total limit in
    record {
      base = to_paginated_result items total page limit;
      total_pages = total_pages;
      has_next_page = ltb page total_pages;
    }

abbrev pub default_messages_limit : ℕ
default_messages_limit = 30

abbrev pub max_messages_limit : ℕ
max_messages_limit = 100

-- Without a page the last one, so that a chat opens at its newest messages.
unfoldable pub resolve_messages_pagination : ℕ → Option ℕ → Option ℕ → PageRequest
resolve_messages_pagination total page limit =
    let safe_limit = min max_messages_limit (max 1 (or_else limit default_messages_limit)) in
    let total_pages = max 1 (ceil_div total safe_limit) in
    let safe_page = min (max 1 (or_else page total_pages)) total_pages in
    record { page = safe_page; limit = safe_limit; skip = (safe_page - 1) * safe_limit }
