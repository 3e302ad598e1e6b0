-- ===== src/Shared/Keyed.antt =====
-- Tables with a unique column: the first row that fits, and its update.
pub mod Counting
use buyseekk.Prelude.{
  ℕ, suc, ◌≡◌, refl, Bool, true, false, Option, none, some, List, [], ◌∷◌, ◌++◌, if◌then◌else◌,
  arith,
}
use mathlib.Core.Option

module _ {A : Type 0} where
  abbrev pub find_first : (A → Bool) → List A → Option A
  find_first p [] = none
  find_first p (x ∷ xs) = let rest = find_first p xs in if p x then some x else rest

  abbrev pub modify_first : (A → Bool) → (A → A) → List A → List A
  modify_first p f [] = []
  modify_first p f (x ∷ xs) = let rest = modify_first p f xs in if p x then f x ∷ xs else x ∷ rest

  -- `findFirst` with an order: the best row that fits and its position, the first one among equals.
  abbrev pub best_from : (A → A → Bool) → (A → Bool) → ℕ → List A → Option (ℕ × A)
  best_from better p i [] = none
  best_from better p i (x ∷ xs) =
      let rest = best_from better p (suc i) xs in
      if p x
      then elim rest [
        | none ↦ some (i, x)
        | some (j, y) ↦ if better y x then some (j, y) else some (i, x)
      ]
      else rest

module _ {A : Type 0} where
  pub find_first-modify_first :
      (p : A → Bool) (f : A → A)
      → ((a : A) → p (f a) ≡ p a)
      → (xs : List A) → find_first p (modify_first p f xs) ≡ Option.map f (find_first p xs)
  find_first-modify_first p f h [] = refl
  find_first-modify_first p f h (x ∷ xs) = ground (arith, h x, find_first-modify_first p f h xs)

  -- An update of a row that does not fit `q`, before and after, is not seen by `q`.
  pub find_first-modify_other :
      (p q : A → Bool) (f : A → A)
      → ((a : A) → p a ≡ true → q (f a) ≡ q a)
      → ((a : A) → p a ≡ true → q a ≡ false)
      → (xs : List A) → find_first q (modify_first p f xs) ≡ find_first q xs
  find_first-modify_other p q f same other [] = refl
  find_first-modify_other p q f same other (x ∷ xs) =
      ground (arith, same x, other x, find_first-modify_other p q f same other xs)

  pub find_first-append_new :
      (p : A → Bool) (a : A) (xs : List A)
      → find_first p xs ≡ none
      → p a ≡ true
      → find_first p (xs ++ a ∷ []) ≡ some a
  find_first-append_new p a [] h t = ground arith
  find_first-append_new p a (x ∷ xs) h t = ground (arith, find_first-append_new p a xs)

  pub find_first-append_other :
      (p : A → Bool) (a : A) (xs : List A)
      → p a ≡ false
      → find_first p (xs ++ a ∷ []) ≡ find_first p xs
  find_first-append_other p a [] t = ground arith
  find_first-append_other p a (x ∷ xs) t = ground (arith, find_first-append_other p a xs)

  pub find_first_fits : (p : A → Bool) (xs : List A) {a : A} → find_first p xs ≡ some a → p a ≡ true
  find_first_fits p [] h = cc
  find_first_fits p (x ∷ xs) {a} h = ground (arith, find_first_fits p xs {a = a})
