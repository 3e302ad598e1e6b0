-- ===== src/Auth/Duration.antt =====
-- `parseDurationMs` of apps/api/src/auth/refresh-cookie.ts: digits and a unit, else thirty days.
pub mod Laws
use buyseekk.Prelude.{
  ℕ, ◌*◌, Bool, true, false, Option, none, some, List, [], ◌∷◌, ◌&&◌, not, ◌==◌, is_empty, trim,
  Text, if◌then◌else◌,
}
use mathlib.Core.List.{reverse}
use buyseekk.Shared.Decimal.{all_digits, value_from}

abbrev pub default_duration_ms : ℕ
default_duration_ms = 30 * 24 * 60 * 60 * 1000

-- The multiplier of s, m, h and d.
unfoldable pub unit_ms : ℕ → Option ℕ
unit_ms c =
    if c == 115
    then some 1000
    else if c == 109
    then some (60 * 1000)
    else if c == 104
    then some (60 * 60 * 1000)
    else if c == 100
    then some (24 * 60 * 60 * 1000)
    else none

-- The pattern `^(\d+)([smhd])$`, read from the end of the text.
abbrev pub from_end : Text → ℕ
from_end [] = default_duration_ms
from_end (c ∷ s) = elim (unit_ms c) [
  | none ↦ default_duration_ms
  | some multiplier ↦
      let digits = reverse s in
      if not (is_empty digits) && all_digits digits
      then value_from 0 digits * multiplier
      else default_duration_ms
]

unfoldable pub parse_duration_ms : Text → ℕ
unfolding unit_ms
parse_duration_ms value = from_end (reverse (trim value))
