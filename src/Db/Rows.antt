-- ===== src/Db/Rows.antt =====
-- Looking up a row by a unique column.
use buyseekk.Prelude.{
  ℕ, suc, ◌+◌, ◌≡◌, refl, inl, inr, Bool, true, Option, none, some, List, [], ◌∷◌, ◌++◌, ◌==◌,
  length, Bool-cases, is_some, arith,
}
use buyseekk.Db.Schema.{Chat}
use buyseekk.Db.Tables.{find_from, chat_of_offer}

-- The row that is appended is found where none was.
pub find_from-append_new :
    {A : Type 0} (p : A → Bool) (i : ℕ) (xs : List A) (a : A)
    → find_from p i xs ≡ none
    → p a ≡ true
    → find_from p i (xs ++ a ∷ []) ≡ some (i + length xs, a)
find_from-append_new p i [] a h t = ground arith
find_from-append_new p i (x ∷ xs) a h t = elim (Bool-cases (p x)) [
  | inl here ↦ absurd (ground arith)
  | inr later ↦ ground (arith, find_from-append_new p (suc i) xs a)
]

pub some_row : {A : Type 0} (o : Option A) → is_some o ≡ true → (a : A) × (o ≡ some a)
some_row none h = absurd (cc h)
some_row (some a) h = (a, refl)

pub chat_of_offer-append_new :
    (offer_id : ℕ) (chats : List Chat) (c : Chat)
    → chat_of_offer offer_id chats ≡ none
    → c.offer_id ≡ offer_id
    → chat_of_offer offer_id (chats ++ c ∷ []) ≡ some (length chats, c)
unfolding chat_of_offer
chat_of_offer-append_new offer_id chats c missing e =
    let at : 0 + length chats ≡ length chats = omega arith in
    rw at at (find_from-append_new (λ d. d.offer_id == offer_id) 0 chats c missing (ground arith))
