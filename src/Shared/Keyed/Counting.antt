-- ===== src/Shared/Keyed/Counting.antt =====
-- Tables of which at most one row fits: which row a search finds, and what an update leaves.
use buyseekk.Prelude.{
  ℕ, zero, suc, ◌+◌, ◌≤◌, ◌≡◌, refl, inl, inr, Bool, true, false, none, some, List, [], ◌∷◌,
  get_elem?, count_where, count_where-pos, update_where, some_of, if◌then◌else◌, arith, Bool-cases,
  Option-cases,
}
use buyseekk.Shared.Keyed.{best_from}

module _ {A : Type 0} where
  pub update_where-none :
      (p : A → Bool) (f : A → A) (xs : List A) → count_where p xs ≡ 0 → update_where p f xs ≡ xs
  update_where-none p f [] h = refl
  update_where-none p f (x ∷ xs) h = ground (arith, update_where-none p f xs)

  pub count_where-some_of :
      (p : A → Bool) (xs : List A) → some_of p xs ≡ false → count_where p xs ≡ 0
  count_where-some_of p [] h = refl
  count_where-some_of p (x ∷ xs) h = ground (arith, count_where-some_of p xs)

  -- What an update makes no row fit, it does not add to the rows that fit.
  pub count_where-update_le :
      (p q : A → Bool) (f : A → A)
      → ((a : A) → p (f a) ≡ false)
      → (xs : List A) → count_where p (update_where q f xs) ≤ count_where p xs
  count_where-update_le p q f h [] = omega arith
  count_where-update_le p q f h (x ∷ xs) = ground (arith, h x, count_where-update_le p q f h xs)

  -- Rows that fit `p` are those that fit `q` and those that fit `r`.
  pub count_where_split :
      (p q r : A → Bool)
      → ((a : A) → (if p a then 1 else 0) ≡ (if q a then 1 else 0) + (if r a then 1 else 0))
      → (xs : List A) → count_where p xs ≡ count_where q xs + count_where r xs
  count_where_split p q r h [] = refl
  count_where_split p q r h (x ∷ xs) = omega (arith, h x, count_where_split p q r h xs)

  pub best_from-none :
      (better : A → A → Bool) (p : A → Bool) (k : ℕ) (xs : List A)
      → count_where p xs ≡ 0
      → best_from better p k xs ≡ none
  best_from-none better p k [] h = refl
  best_from-none better p k (x ∷ xs) h = ground (arith, best_from-none better p (suc k) xs)

  pub best_from_only :
      (better : A → A → Bool) (p : A → Bool) (k : ℕ) (xs : List A) (i : ℕ) {a : A}
      → count_where p xs ≤ 1
      → get_elem? xs i ≡ some a
      → p a ≡ true
      → best_from better p k xs ≡ some (k + i, a)
  best_from_only better p k [] i h e t = cc
  best_from_only better p k (x ∷ xs) zero {a} h e t =
      ground (arith, best_from-none better p (suc k) xs)
  best_from_only better p k (x ∷ xs) (suc i) {a} h e t =
      ground (arith, count_where-pos p xs i e t, best_from_only better p (suc k) xs i {a = a})

  pub best_from-eq-some :
      (better : A → A → Bool) (p : A → Bool) (k : ℕ) (xs : List A) {j : ℕ} {a : A}
      → best_from better p k xs ≡ some (j, a)
      → (i : ℕ) × (j ≡ k + i) × (get_elem? xs i ≡ some a) × (p a ≡ true)
  best_from-eq-some better p k [] h = cc
  best_from-eq-some better p k (x ∷ xs) {j} {a} h = elim (Bool-cases (p x)) [
    | inl t ↦ elim (Option-cases (best_from better p (suc k) xs)) [
      | inl e ↦ (0, ground arith, ground arith, ground arith)
      | inr ((j', b), e) ↦ elim (Bool-cases (better b x)) [
        | inl w ↦
            let (i, at, row, fits) = best_from-eq-some better p (suc k) xs e in
            (suc i, ground arith, ground arith, ground arith)
        | inr w ↦ (0, ground arith, ground arith, ground arith)
      ]
    ]
    | inr t ↦
        let (i, at, row, fits) = best_from-eq-some better p (suc k) xs {a = a} (found t) in
        (suc i, omega arith, row, fits)
  ]
    where
      found : p x ≡ false → best_from better p (suc k) xs ≡ some (j, a)
      found t = ground arith
