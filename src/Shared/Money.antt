-- ===== src/Shared/Money.antt =====
-- packages/shared/src/money-limits.ts. Amounts are the natural numbers that the DTOs' `@IsInt()` and
-- `@Min` let through, so the tests for a finite and an integral number are met.
use buyseekk.Prelude.{ℕ, Bool, false, leb, ltb, if◌then◌else◌}

pub data Currency : Type 0 where
  ars usd : Currency

unfoldable pub max_amount_for : Currency → Bool → ℕ
max_amount_for Currency.usd is_rent = if is_rent then 100_000 else 25_000_000
max_amount_for Currency.ars is_rent = if is_rent then 100_000_000 else 25_000_000_000

unfoldable pub is_valid_money_amount : ℕ → Currency → Bool → Bool
unfolding max_amount_for
is_valid_money_amount amount currency is_rent =
    if ltb amount 1 then false else leb amount (max_amount_for currency is_rent)
