-- ===== src/Auth/Duration/Laws.antt =====
-- A duration is read as it is written.
use buyseekk.Prelude.{
  ℕ, ◌*◌, ◌≡◌, refl, ap, ◌∙◌, true, false, [], ◌∷◌, ◌++◌, is_empty, is_space, trim_start, trim,
  Text, arith,
}
use mathlib.Core.List.{reverse, reverse-append, reverse-reverse}
use buyseekk.Shared.Decimal.{
  decimal, all_digits, value_from-decimal, all_digits-decimal, decimal_filled,
}
use buyseekk.Auth.Duration.{unit_ms, from_end, parse_duration_ms}

pub data TimeUnit : Type 0 where
  seconds minutes hours days : TimeUnit

abbrev pub unit_letter : TimeUnit → ℕ
unit_letter TimeUnit.seconds = 115
unit_letter TimeUnit.minutes = 109
unit_letter TimeUnit.hours = 104
unit_letter TimeUnit.days = 100

abbrev pub milliseconds : TimeUnit → ℕ
milliseconds TimeUnit.seconds = 1000
milliseconds TimeUnit.minutes = 60_000
milliseconds TimeUnit.hours = 3_600_000
milliseconds TimeUnit.days = 86_400_000

abbrev pub print_duration : ℕ → TimeUnit → Text
print_duration n unit = decimal n ++ unit_letter unit ∷ []

trim_start_digits :
    (s rest : Text) → all_digits s ≡ true → is_empty s ≡ false → trim_start (s ++ rest) ≡ s ++ rest
unfolding trim_start all_digits is_space
trim_start_digits [] rest d f = cc
trim_start_digits (c ∷ s) rest d f = ground arith

trim_start_letter :
    (unit : TimeUnit) (s : Text) → trim_start (unit_letter unit ∷ s) ≡ unit_letter unit ∷ s
unfolding trim_start is_space
trim_start_letter TimeUnit.seconds s = refl
trim_start_letter TimeUnit.minutes s = refl
trim_start_letter TimeUnit.hours s = refl
trim_start_letter TimeUnit.days s = refl

-- Read from its end, a printed duration is the letter and then the digits backwards; nothing is trimmed.
reverse-trim_printed :
    (n : ℕ) (unit : TimeUnit)
    → reverse (trim (print_duration n unit)) ≡ unit_letter unit ∷ reverse (decimal n)
unfolding trim
reverse-trim_printed n unit = rw (
  trim_start_digits (decimal n) (unit_letter unit ∷ []) (all_digits-decimal n) (decimal_filled n),
  reverse-append (decimal n) (unit_letter unit ∷ []),
  trim_start_letter unit (reverse (decimal n)),
  reverse-reverse (unit_letter unit ∷ reverse (decimal n)),
)

from_end-digits :
    (n : ℕ) (unit : TimeUnit)
    → from_end (unit_letter unit ∷ reverse (decimal n)) ≡ n * milliseconds unit
unfolding unit_ms
from_end-digits n TimeUnit.seconds =
    rw (reverse-reverse (decimal n), decimal_filled n, all_digits-decimal n, value_from-decimal n)
from_end-digits n TimeUnit.minutes =
    rw (reverse-reverse (decimal n), decimal_filled n, all_digits-decimal n, value_from-decimal n)
from_end-digits n TimeUnit.hours =
    rw (reverse-reverse (decimal n), decimal_filled n, all_digits-decimal n, value_from-decimal n)
from_end-digits n TimeUnit.days =
    rw (reverse-reverse (decimal n), decimal_filled n, all_digits-decimal n, value_from-decimal n)

-- A duration that is written as a number, as JavaScript prints it, and one of the letters s, m, h and d is read
-- as that many seconds, minutes, hours or days, in milliseconds.
pub parse_duration_ms-print_duration :
    (n : ℕ) (unit : TimeUnit) → parse_duration_ms (print_duration n unit) ≡ n * milliseconds unit
unfolding parse_duration_ms
parse_duration_ms-print_duration n unit =
    ap from_end (reverse-trim_printed n unit) ∙ from_end-digits n unit
