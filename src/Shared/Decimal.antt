-- ===== src/Shared/Decimal.antt =====
-- A number as JavaScript prints it in a template, and `Number` of a text of digits. Both are exact
-- below 2 ^ 53, where the numbers of the callers lie.
use buyseekk.Prelude.{
  ℕ, zero, suc, ◌+◌, ◌-◌, ◌*◌, ◌/◌, ◌%◌, ◌<◌, ◌≡◌, refl, ap, ◌∙◌, inl, inr, Bool, true, false, ◌&&◌,
  [], ◌∷◌, ltb, leb, is_empty, Text, if◌then◌else◌, arith, Bool-cases,
}

abbrev pub is_digit : ℕ → Bool
is_digit c = leb 48 c && leb c 57

-- The digits of a number before those that are there already; a number has at most as many as it
-- has predecessors.
unfoldable pub digits_from : ℕ → ℕ → Text → Text
digits_from zero n acc = acc
digits_from (suc fuel) n acc =
    let rest = digits_from fuel (n / 10) ((48 + n % 10) ∷ acc) in
    if ltb n 10 then (48 + n) ∷ acc else rest

unfoldable pub decimal : ℕ → Text
unfolding digits_from
decimal n = digits_from (suc n) n []

-- The value of the digits at the front, after a value read so far.
unfoldable pub value_from : ℕ → Text → ℕ
value_from acc [] = acc
value_from acc (c ∷ s) = value_from (acc * 10 + (c - 48)) s

unfoldable pub all_digits : Text → Bool
all_digits [] = true
all_digits (c ∷ s) = is_digit c && all_digits s

value_from-digits_from :
    (fuel n : ℕ) (acc : Text) → n < fuel → value_from 0 (digits_from fuel n acc) ≡ value_from n acc
unfolding digits_from value_from
value_from-digits_from zero n acc h = elim h [ ]
value_from-digits_from (suc fuel) n acc h = elim (Bool-cases (ltb n 10)) [
  | inl e ↦ rw e (ap (λ k. value_from k acc) (omega arith))
  | inr e ↦ rw e (
      value_from-digits_from fuel (n / 10) ((48 + n % 10) ∷ acc) (ground arith)
      ∙ ap (λ k. value_from k acc) (omega arith))
]

pub value_from-decimal : (n : ℕ) → value_from 0 (decimal n) ≡ n
unfolding decimal value_from
value_from-decimal n = value_from-digits_from (suc n) n [] (omega arith)

all_digits-digits_from :
    (fuel n : ℕ) (acc : Text) → all_digits acc ≡ true → all_digits (digits_from fuel n acc) ≡ true
unfolding digits_from all_digits
all_digits-digits_from zero n acc h = h
all_digits-digits_from (suc fuel) n acc h =
    ground (arith, all_digits-digits_from fuel (n / 10) ((48 + n % 10) ∷ acc) (ground arith))

pub all_digits-decimal : (n : ℕ) → all_digits (decimal n) ≡ true
unfolding decimal all_digits
all_digits-decimal n = all_digits-digits_from (suc n) n [] refl

digits_from_filled :
    (fuel n : ℕ) (acc : Text) → n < fuel → is_empty (digits_from fuel n acc) ≡ false
unfolding digits_from
digits_from_filled zero n acc h = elim h [ ]
digits_from_filled (suc fuel) n acc h =
    ground (arith, digits_from_filled fuel (n / 10) ((48 + n % 10) ∷ acc))

pub decimal_filled : (n : ℕ) → is_empty (decimal n) ≡ false
unfolding decimal
decimal_filled n = digits_from_filled (suc n) n [] (omega arith)
