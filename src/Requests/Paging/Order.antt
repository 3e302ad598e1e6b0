-- ===== src/Requests/Paging/Order.antt =====
-- The answers of ordered queries: which rows they hold, and that distinct keys leave them no choice.
use mathlib.Core.List.{Perm, perm_middle, map-append}
use mathlib.Core.List.Perm
use buyseekk.Prelude.{
  ℕ, suc, ◌≡◌, ◌≢◌, refl, ◌∙◌, ap, Bool, true, false, inl, inr, List, [], ◌∷◌, ◌++◌, map, ◌&&◌,
  ◌||◌, Bool-cases, arith,
}
use buyseekk.Shared.RequestStatus.{insert_by, sort_by}
use buyseekk.Shared.RequestStatus.Sorting.{AllOf, IsOrdered, AllOf-insert_by, sort_by-Perm}
use buyseekk.Requests.Paging.{ids_where, not_before, find_ids}

module _ {A : Type 0} where
  AllOf-imp : (P Q : A → Type 0) → ((a : A) → P a → Q a) → (xs : List A) → AllOf P xs → AllOf Q xs
  AllOf-imp P Q f [] h = tt
  AllOf-imp P Q f (x ∷ xs) h = (f x h.0, AllOf-imp P Q f xs h.1)

  AllOf-sort_by :
      (le : A → A → Bool) (P : A → Type 0) (xs : List A) → AllOf P xs → AllOf P (sort_by le xs)
  unfolding sort_by
  AllOf-sort_by le P [] h = tt
  AllOf-sort_by le P (x ∷ xs) h =
      AllOf-insert_by le P x (sort_by le xs) h.0 (AllOf-sort_by le P xs h.1)

  insert_by-agree :
      (le le' : A → A → Bool) (x : A) (ys : List A)
      → AllOf (λ y. le x y ≡ le' x y) ys
      → insert_by le x ys ≡ insert_by le' x ys
  unfolding insert_by
  insert_by-agree le le' x [] h = refl
  insert_by-agree le le' x (y ∷ ys) h = rw (h.0, insert_by-agree le le' x ys h.1) refl

  -- Two orders that agree on the rows, each against the later ones, sort them alike.
  sort_by-agree :
      (le le' : A → A → Bool) (xs : List A)
      → IsOrdered (λ a b. le a b ≡ le' a b) xs
      → sort_by le xs ≡ sort_by le' xs
  unfolding sort_by
  sort_by-agree le le' [] h = refl
  sort_by-agree le le' (x ∷ xs) h =
      insert_by-agree le le' x (sort_by le xs) (AllOf-sort_by le (λ y. le x y ≡ le' x y) xs h.0)
      ∙ ap (insert_by le' x) (sort_by-agree le le' xs h.1)

module _ {A : Type 0} where
  AllOf-ids_where :
      (P : A → Type 0) (fits : A → Bool) (i : ℕ) (xs : List A)
      → AllOf P xs
      → AllOf (λ (e : ℕ × A). P e.1) (ids_where fits i xs)
  unfolding ids_where
  AllOf-ids_where P fits i [] h = tt
  AllOf-ids_where P fits i (x ∷ xs) h = elim (Bool-cases (fits x)) [
    | inl t ↦ rw t (h.0, AllOf-ids_where P fits (suc i) xs h.1)
    | inr t ↦ rw t (AllOf-ids_where P fits (suc i) xs h.1)
  ]

  module _ (ties ties' : ℕ → ℕ → Bool) (fits : A → Bool) (key : A → ℕ) where
    ids_where-agree :
        (i : ℕ) (xs : List A)
        → IsOrdered (λ a b. key a ≢ key b) xs
        → IsOrdered
            (λ a b. not_before ties key a b ≡ not_before ties' key a b)
            (ids_where fits i xs)
    unfolding ids_where
    ids_where-agree i [] h = tt
    ids_where-agree i (x ∷ xs) h = elim (Bool-cases (fits x)) [
      | inr t ↦ rw t (ids_where-agree (suc i) xs h.1)
      | inl t ↦ rw t (
        AllOf-imp (λ (e : ℕ × A). key x ≢ key e.1)
            (λ e. not_before ties key (i, x) e ≡ not_before ties' key (i, x) e) apart
            (ids_where fits (suc i) xs) (AllOf-ids_where (λ y. key x ≢ key y) fits (suc i) xs h.0),
        ids_where-agree (suc i) xs h.1,
      )
    ]
      where
        apart :
            (e : ℕ × A)
            → key x ≢ key e.1
            → not_before ties key (i, x) e ≡ not_before ties' key (i, x) e
        apart e ne = ground arith

    pub find_ids-ties :
        (xs : List A)
        → IsOrdered (λ a b. key a ≢ key b) xs
        → find_ids ties fits key xs ≡ find_ids ties' fits key xs
    unfolding find_ids
    find_ids-ties xs h = ap (map (λ (e : ℕ × A). e.0)) (
        sort_by-agree (not_before ties key) (not_before ties' key) (ids_where fits 0 xs)
          (ids_where-agree 0 xs h))

  module _ (ties : ℕ → ℕ → Bool) (p q both : A → Bool) (key : A → ℕ)
      (split : (a : A) → (both a ≡ (p a || q a)) × ((p a && q a) ≡ false)) where
    ids_where-Perm :
        (i : ℕ) (xs : List A) → Perm (ids_where p i xs ++ ids_where q i xs) (ids_where both i xs)
    unfolding ids_where
    ids_where-Perm i [] = Perm.refl []
    ids_where-Perm i (x ∷ xs) = elim (Bool-cases (p x)) [
      | inl t ↦
          let u : q x ≡ false = let s = split x in ground arith in
          let v : both x ≡ true = let s = split x in ground arith in
          rw (t, u, v) (Perm.cons (i, x) (ids_where-Perm (suc i) xs))
      | inr t ↦ elim (Bool-cases (q x)) [
        | inl u ↦
            let v : both x ≡ true = let s = split x in ground arith in
            rw (t, u, v)
              (Perm.trans (perm_middle (ids_where p (suc i) xs) (ids_where q (suc i) xs))
                (Perm.cons (i, x) (ids_where-Perm (suc i) xs)))
        | inr u ↦
            let v : both x ≡ false = let s = split x in ground arith in
            rw (t, u, v) (ids_where-Perm (suc i) xs)
      ]
    ]

    -- Of two queries that share no row, the answers together hold the rows of both.
    pub find_ids-Perm :
        (xs : List A)
        → Perm
            (find_ids ties p key xs ++ find_ids ties q key xs)
            (map (λ e. e.0) (ids_where both 0 xs))
    unfolding find_ids
    find_ids-Perm xs =
        let id : ℕ × A → ℕ = λ e. e.0 in
        Perm.trans
          (Perm.append (Perm.map id (sort_by-Perm (not_before ties key) (ids_where p 0 xs)))
            (Perm.map id (sort_by-Perm (not_before ties key) (ids_where q 0 xs))))
          (rw (← map-append id (ids_where p 0 xs) (ids_where q 0 xs))
            (Perm.map id (ids_where-Perm 0 xs)))
