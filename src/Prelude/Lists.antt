-- ===== src/Prelude/Lists.antt =====
-- Lists measured and indexed by native numbers, and the Boolean versions of filter and some.
use Prim.Native.Nat.{ℕ, zero, suc, ◌+◌, ◌-◌, ◌<◌, min}
use mathlib.Core.Path.{◌≡◌, refl, ap}
use mathlib.Core.Logic.{◌≢◌, ◌⊎◌, inl, inr}
use mathlib.Core.Bool.{Bool, true, false, ◌||◌}
use mathlib.Core.Option.{Option, none, some}
use mathlib.Core.List.{List, [], ◌∷◌, ◌++◌}
use native.Mathlib.Omega.{arith}
use buyseekk.Prelude.Tests.{if◌then◌else◌}

module _ {ℓ} {A : Type ℓ} where
  abbrev pub length : List A → ℕ
  length [] = 0
  length (_ ∷ xs) = suc (length xs)

  abbrev pub get_elem? : List A → ℕ → Option A
  get_elem? [] _ = none
  get_elem? (x ∷ _) zero = some x
  get_elem? (_ ∷ xs) (suc i) = get_elem? xs i

  -- The row at an index is replaced by its image; out of range nothing changes.
  abbrev pub modify : List A → ℕ → (A → A) → List A
  modify [] _ _ = []
  modify (x ∷ xs) zero f = f x ∷ xs
  modify (x ∷ xs) (suc i) f = x ∷ modify xs i f

  abbrev pub take : ℕ → List A → List A
  take zero _ = []
  take (suc _) [] = []
  take (suc n) (x ∷ xs) = x ∷ take n xs

  abbrev pub drop : ℕ → List A → List A
  drop zero xs = xs
  drop (suc _) [] = []
  drop (suc n) (_ ∷ xs) = drop n xs

  -- `xs.filter(p)`
  abbrev pub select : (A → Bool) → List A → List A
  select p [] = []
  select p (x ∷ xs) = let rest = select p xs in if p x then x ∷ rest else rest

  -- `xs.some(p)`
  abbrev pub some_of : (A → Bool) → List A → Bool
  some_of p [] = false
  some_of p (x ∷ xs) = p x || some_of p xs

  -- `SELECT count(*) WHERE p`
  abbrev pub count_where : (A → Bool) → List A → ℕ
  count_where p [] = 0
  count_where p (x ∷ xs) = (if p x then 1 else 0) + count_where p xs

  -- `UPDATE … SET f WHERE p`
  abbrev pub update_where : (A → Bool) → (A → A) → List A → List A
  update_where p f [] = []
  update_where p f (x ∷ xs) = (if p x then f x else x) ∷ update_where p f xs

module _ {ℓ} {A : Type ℓ} where
  pub length-append : (xs ys : List A) → length (xs ++ ys) ≡ length xs + length ys
  length-append [] ys = omega arith
  length-append (_ ∷ xs) ys = omega (arith, length-append xs ys)

  pub length-take : (n : ℕ) (xs : List A) → length (take n xs) ≡ min n (length xs)
  length-take zero xs = omega arith
  length-take (suc n) [] = omega arith
  length-take (suc n) (_ ∷ xs) = omega (arith, length-take n xs)

  pub length-drop : (n : ℕ) (xs : List A) → length (drop n xs) ≡ length xs - n
  length-drop zero xs = omega arith
  length-drop (suc n) [] = omega arith
  length-drop (suc n) (_ ∷ xs) = omega (arith, length-drop n xs)

  pub length-select : (p : A → Bool) (xs : List A) → length (select p xs) ≡ count_where p xs
  length-select p [] = refl
  length-select p (x ∷ xs) = ground (arith, length-select p xs)

  pub length-modify : (xs : List A) (i : ℕ) (f : A → A) → length (modify xs i f) ≡ length xs
  length-modify [] i f = refl
  length-modify (_ ∷ xs) zero f = refl
  length-modify (_ ∷ xs) (suc i) f = ap suc (length-modify xs i f)

  pub get_elem?-modify_self :
      (xs : List A) (i : ℕ) (f : A → A) {a : A}
      → get_elem? xs i ≡ some a
      → get_elem? (modify xs i f) i ≡ some (f a)
  get_elem?-modify_self [] i f h = cc
  get_elem?-modify_self (_ ∷ xs) zero f h = cc
  get_elem?-modify_self (_ ∷ xs) (suc i) f h = get_elem?-modify_self xs i f h

  pub get_elem?-modify_ne :
      (xs : List A) (i j : ℕ) (f : A → A) → i ≢ j → get_elem? (modify xs i f) j ≡ get_elem? xs j
  get_elem?-modify_ne [] i j f h = refl
  get_elem?-modify_ne (_ ∷ xs) zero zero f h = absurd (h refl)
  get_elem?-modify_ne (_ ∷ xs) zero (suc j) f h = refl
  get_elem?-modify_ne (_ ∷ xs) (suc i) zero f h = refl
  get_elem?-modify_ne (_ ∷ xs) (suc i) (suc j) f h =
      get_elem?-modify_ne xs i j f (λ e. h (ap suc e))

  pub get_elem?-append_lt :
      (xs ys : List A) (i : ℕ) {a : A} → get_elem? xs i ≡ some a → get_elem? (xs ++ ys) i ≡ some a
  get_elem?-append_lt [] ys i h = cc
  get_elem?-append_lt (_ ∷ xs) ys zero h = h
  get_elem?-append_lt (_ ∷ xs) ys (suc i) h = get_elem?-append_lt xs ys i h

  pub get_elem?-append_new : (xs : List A) (a : A) → get_elem? (xs ++ a ∷ []) (length xs) ≡ some a
  get_elem?-append_new [] a = refl
  get_elem?-append_new (_ ∷ xs) a = get_elem?-append_new xs a

  -- A row of a table with one new row is an old row, or the new one at the new index.
  pub get_elem?-append_one :
      (xs : List A) (a : A) (i : ℕ) {b : A}
      → get_elem? (xs ++ a ∷ []) i ≡ some b
      → (get_elem? xs i ≡ some b) ⊎ ((i ≡ length xs) × (b ≡ a))
  get_elem?-append_one [] a zero h = ground arith
  get_elem?-append_one [] a (suc i) h = cc
  get_elem?-append_one (_ ∷ xs) a zero h = inl h
  get_elem?-append_one (_ ∷ xs) a (suc i) h = elim (get_elem?-append_one xs a i h) [
    | inl old ↦ inl old
    | inr (at, new) ↦ inr (omega arith, new)
  ]

  pub count_where-append :
      (p : A → Bool) (xs ys : List A)
      → count_where p (xs ++ ys) ≡ count_where p xs + count_where p ys
  count_where-append p [] ys = omega arith
  count_where-append p (x ∷ xs) ys = omega (arith, count_where-append p xs ys)

  -- What an update of one row does to a count, without subtraction.
  pub count_where-modify :
      (p : A → Bool) (xs : List A) (i : ℕ) (f : A → A) {a : A}
      → get_elem? xs i ≡ some a
      → count_where p (modify xs i f) + (if p a then 1 else 0)
        ≡ count_where p xs + (if p (f a) then 1 else 0)
  count_where-modify p [] i f h = cc
  count_where-modify p (x ∷ xs) zero f h = ground arith
  count_where-modify p (x ∷ xs) (suc i) f h = omega (arith, count_where-modify p xs i f h)

  pub count_where-pos :
      (p : A → Bool) (xs : List A) (i : ℕ) {a : A}
      → get_elem? xs i ≡ some a
      → p a ≡ true
      → 0 < count_where p xs
  count_where-pos p [] i h t = cc
  count_where-pos p (x ∷ xs) zero h t = ground arith
  count_where-pos p (x ∷ xs) (suc i) h t = omega (arith, count_where-pos p xs i h t)

  pub count_where-update_where :
      (p q : A → Bool) (f : A → A)
      → ((a : A) → p (if q a then f a else a) ≡ false)
      → (xs : List A) → count_where p (update_where q f xs) ≡ 0
  count_where-update_where p q f h [] = refl
  count_where-update_where p q f h (x ∷ xs) =
      rw (h x) (omega (arith, count_where-update_where p q f h xs))

  pub count_where-update_same :
      (p q : A → Bool) (f : A → A)
      → ((a : A) → p (if q a then f a else a) ≡ p a)
      → (xs : List A) → count_where p (update_where q f xs) ≡ count_where p xs
  count_where-update_same p q f h [] = refl
  count_where-update_same p q f h (x ∷ xs) =
      rw (h x) (omega (arith, count_where-update_same p q f h xs))

  pub get_elem?-update_where :
      (q : A → Bool) (f : A → A) (xs : List A) (i : ℕ) {b : A}
      → get_elem? (update_where q f xs) i ≡ some b
      → (a : A) × (get_elem? xs i ≡ some a) × (b ≡ (if q a then f a else a))
  get_elem?-update_where q f [] i h = cc
  get_elem?-update_where q f (x ∷ xs) zero h = (x, refl, cc)
  get_elem?-update_where q f (x ∷ xs) (suc i) h = get_elem?-update_where q f xs i h

  -- A row of an updated table is the image of the updated row, or a row that stayed.
  pub get_elem?-modify_cases :
      (xs : List A) (i j : ℕ) (f : A → A) {b : A}
      → get_elem? (modify xs i f) j ≡ some b
      → ((i ≡ j) × ((a : A) × (get_elem? xs i ≡ some a) × (b ≡ f a)))
        ⊎ ((i ≢ j) × (get_elem? xs j ≡ some b))
  get_elem?-modify_cases [] i j f h = cc
  get_elem?-modify_cases (x ∷ xs) zero zero f h = inl (refl, (x, refl, ground arith))
  get_elem?-modify_cases (x ∷ xs) zero (suc j) f h = inr (omega arith, h)
  get_elem?-modify_cases (x ∷ xs) (suc i) zero f h = inr (omega arith, h)
  get_elem?-modify_cases (x ∷ xs) (suc i) (suc j) f h = elim (get_elem?-modify_cases xs i j f h) [
    | inl (e, w) ↦ inl (omega arith, w)
    | inr (ne, old) ↦ inr (omega arith, old)
  ]

  pub modify-id : (xs : List A) (i : ℕ) (f : A → A) → ((a : A) → f a ≡ a) → modify xs i f ≡ xs
  modify-id [] i f h = refl
  modify-id (x ∷ xs) zero f h = rw (h x)
  modify-id (x ∷ xs) (suc i) f h = rw (modify-id xs i f h)

  pub modify-out_of_range :
      (xs : List A) (i : ℕ) (f : A → A) → get_elem? xs i ≡ none → modify xs i f ≡ xs
  modify-out_of_range [] i f h = refl
  modify-out_of_range (x ∷ xs) zero f h = cc
  modify-out_of_range (x ∷ xs) (suc i) f h = rw (modify-out_of_range xs i f h)
