-- ===== src/Shared/TextOrder.antt =====
-- JavaScript's `<` and `<=` on strings: by code units, from the left.
use buyseekk.Prelude.{
  ◌≡◌, refl, ◌⊎◌, inl, inr, Bool, true, false, not, [], ◌∷◌, ltb, ◌==◌, if◌then◌else◌, Text,
  text_eq, arith,
}

abbrev pub ltb_text : Text → Text → Bool
ltb_text [] [] = false
ltb_text [] (_ ∷ _) = true
ltb_text (_ ∷ _) [] = false
ltb_text (a ∷ s) (b ∷ t) =
    let rest = ltb_text s t in if ltb a b then true else if a == b then rest else false

abbrev pub leb_text : Text → Text → Bool
leb_text s t = not (ltb_text t s)

pub text_eq_refl : (s : Text) → text_eq s s ≡ true
text_eq_refl [] = refl
text_eq_refl (a ∷ s) = ground (arith, text_eq_refl s)

pub text_eq_sound : (s t : Text) → text_eq s t ≡ true → s ≡ t
text_eq_sound [] [] h = refl
text_eq_sound [] (_ ∷ _) h = cc
text_eq_sound (_ ∷ _) [] h = cc
text_eq_sound (a ∷ s) (b ∷ t) h = ground (arith, text_eq_sound s t)

pub ltb_text_irrefl : (s : Text) → ltb_text s s ≡ false
ltb_text_irrefl [] = refl
ltb_text_irrefl (a ∷ s) = ground (arith, ltb_text_irrefl s)

pub ltb_text_trans :
    (s t u : Text) → ltb_text s t ≡ true → ltb_text t u ≡ true → ltb_text s u ≡ true
ltb_text_trans [] [] u h k = cc
ltb_text_trans [] (_ ∷ _) [] h k = cc
ltb_text_trans [] (_ ∷ _) (_ ∷ _) h k = refl
ltb_text_trans (_ ∷ _) [] u h k = cc
ltb_text_trans (_ ∷ _) (_ ∷ _) [] h k = cc
ltb_text_trans (a ∷ s) (b ∷ t) (c ∷ u) h k = ground (arith, ltb_text_trans s t u)

pub ltb_text_asym : (s t : Text) → ltb_text s t ≡ true → ltb_text t s ≡ false
ltb_text_asym [] [] h = cc
ltb_text_asym [] (_ ∷ _) h = refl
ltb_text_asym (_ ∷ _) [] h = cc
ltb_text_asym (a ∷ s) (b ∷ t) h = ground (arith, ltb_text_asym s t)

pub ltb_text_total : (s t : Text) → (s ≡ t) ⊎ ((ltb_text s t ≡ true) ⊎ (ltb_text t s ≡ true))
ltb_text_total [] [] = inl refl
ltb_text_total [] (_ ∷ _) = inr (inl refl)
ltb_text_total (_ ∷ _) [] = inr (inr refl)
ltb_text_total (a ∷ s) (b ∷ t) = ground (arith, ltb_text_total s t)

-- What is not above `s` is below whatever is above `s`.
pub ltb_text_of_le :
    (s t u : Text) → ltb_text s t ≡ true → ltb_text u t ≡ false → ltb_text s u ≡ true
ltb_text_of_le s t u h k = elim (ltb_text_total t u) [
  | inl e ↦ cc
  | inr (inl below) ↦ ltb_text_trans s t u h below
  | inr (inr above) ↦ cc
]
