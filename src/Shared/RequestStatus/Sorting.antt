-- ===== src/Shared/RequestStatus/Sorting.antt =====
-- The order of the sellers' lists: the two sorts of request-status.ts.
use mathlib.Core.List.{Perm}
use mathlib.Core.List.Perm
use buyseekk.Prelude.{
  ℕ, ◌≤◌, ◌<◌, ◌≡◌, ◌⊎◌, inl, inr, Bool, true, false, List, [], ◌∷◌, arith, Bool-cases,
}
use buyseekk.Shared.RequestStatus.{
  EffectiveRequestStatus, RequestLifecycleInput, effective_request_status, insert_by, sort_by,
  by_priority, seller_list_priority, saved_list_priority, sort_requests_for_seller,
  sort_saved_requests_for_seller,
}

abbrev pub AllOf {ℓ κ} : {A : Type ℓ} → (A → Type κ) → List A → Type κ
AllOf P [] = Unit
AllOf P (x ∷ xs) = P x × AllOf P xs

-- Every element stands in the relation to every later one.
abbrev pub IsOrdered {ℓ κ} : {A : Type ℓ} → (A → A → Type κ) → List A → Type κ
IsOrdered R [] = Unit
IsOrdered R (x ∷ xs) = AllOf (R x) xs × IsOrdered R xs

module _ {A : Type 0} (le : A → A → Bool) where
  insert_by-Perm : (x : A) (xs : List A) → Perm (insert_by le x xs) (x ∷ xs)
  unfolding insert_by
  insert_by-Perm x [] = Perm.refl (x ∷ [])
  insert_by-Perm x (y ∷ ys) = elim (Bool-cases (le x y)) [
    | inl here ↦ rw here (Perm.refl (x ∷ y ∷ ys))
    | inr later ↦ rw later (Perm.trans (Perm.cons y (insert_by-Perm x ys)) (Perm.swap x y ys))
  ]

  pub sort_by-Perm : (xs : List A) → Perm (sort_by le xs) xs
  unfolding sort_by
  sort_by-Perm [] = Perm.refl []
  sort_by-Perm (x ∷ xs) =
      Perm.trans (insert_by-Perm x (sort_by le xs)) (Perm.cons x (sort_by-Perm xs))

  pub AllOf-insert_by {κ} :
      (P : A → Type κ) (x : A) (xs : List A) → P x → AllOf P xs → AllOf P (insert_by le x xs)
  unfolding insert_by
  AllOf-insert_by P x [] h hs = (h, hs)
  AllOf-insert_by P x (y ∷ ys) h hs = elim (Bool-cases (le x y)) [
    | inl here ↦ rw here (h, hs)
    | inr later ↦ rw later (hs.0, AllOf-insert_by P x ys h hs.1)
  ]

module _ {A : Type 0} (le : A → A → Bool) (R : A → A → Type 0)
    (sound : (a b : A) → le a b ≡ true → R a b) (converse : (a b : A) → le a b ≡ false → R b a)
    (trans : (a b c : A) → R a b → R b c → R a c) where
  AllOf-trans : (x y : A) (ys : List A) → R x y → AllOf (R y) ys → AllOf (R x) ys
  AllOf-trans x y [] h hs = tt
  AllOf-trans x y (z ∷ zs) h hs = (trans x y z h hs.0, AllOf-trans x y zs h hs.1)

  insert_by-IsOrdered : (x : A) (xs : List A) → IsOrdered R xs → IsOrdered R (insert_by le x xs)
  unfolding insert_by
  insert_by-IsOrdered x [] h = (tt, tt)
  insert_by-IsOrdered x (y ∷ ys) h = elim (Bool-cases (le x y)) [
    | inl here ↦ let r = sound x y here in rw here ((r, AllOf-trans x y ys r h.0), h)
    | inr later ↦
        rw later
          (AllOf-insert_by le (R y) x ys (converse x y later) h.0, insert_by-IsOrdered x ys h.1)
  ]

  sort_by-IsOrdered : (xs : List A) → IsOrdered R (sort_by le xs)
  unfolding sort_by
  sort_by-IsOrdered [] = tt
  sort_by-IsOrdered (x ∷ xs) = insert_by-IsOrdered x (sort_by le xs) (sort_by-IsOrdered xs)

-- `a` may stand before `b`: it has the better priority, or the same and activity as late or later.
abbrev pub Precedes :
    (EffectiveRequestStatus → ℕ) → ℕ → RequestLifecycleInput → RequestLifecycleInput → Type 0
Precedes priority now a b =
    let p = priority (effective_request_status a now) in
    let q = priority (effective_request_status b now) in
    (p < q) ⊎ ((p ≡ q) × (b.last_buyer_activity_at ≤ a.last_buyer_activity_at))

module _ (priority : EffectiveRequestStatus → ℕ) (now : ℕ) where
  by_priority_sound :
      (a b : RequestLifecycleInput)
      → by_priority priority now a b ≡ true
      → Precedes priority now a b
  by_priority_sound a b h = ground arith

  by_priority_converse :
      (a b : RequestLifecycleInput)
      → by_priority priority now a b ≡ false
      → Precedes priority now b a
  by_priority_converse a b h = ground arith

  Precedes-trans :
      (a b c : RequestLifecycleInput)
      → Precedes priority now a b
      → Precedes priority now b c
      → Precedes priority now a c
  Precedes-trans a b c h k = ground arith

  by_priority_sorts :
      (items : List RequestLifecycleInput)
      → Perm (sort_by (by_priority priority now) items) items
        × IsOrdered (Precedes priority now) (sort_by (by_priority priority now) items)
  by_priority_sorts items = (
    sort_by-Perm (by_priority priority now) items,
    sort_by-IsOrdered (by_priority priority now) (Precedes priority now) by_priority_sound
        by_priority_converse Precedes-trans items,
  )

-- The explore list and the saved list are each a rearrangement of the rows, in which every row may
-- stand before every later one by the list's own priority and then by the later buyer activity.
pub sort_requests-IsOrdered :
    (items : List RequestLifecycleInput) (now : ℕ)
    → (Perm (sort_requests_for_seller items now) items
        × IsOrdered (Precedes seller_list_priority now) (sort_requests_for_seller items now))
      × (Perm (sort_saved_requests_for_seller items now) items
          × IsOrdered (Precedes saved_list_priority now) (sort_saved_requests_for_seller items now))
unfolding sort_requests_for_seller sort_saved_requests_for_seller
sort_requests-IsOrdered items now = (
  by_priority_sorts seller_list_priority now items,
  by_priority_sorts saved_list_priority now items,
)
