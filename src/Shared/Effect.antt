-- ===== src/Shared/Effect.antt =====
-- Effects over any state: what a service method of a component with tables of its own does. A throw
-- keeps what was written before it.
use buyseekk.Prelude.{Bool, Option, none, some, if◌then◌else◌}

pub data Outcome (E A : Type 0) : Type 0 where
  ok : A → Outcome E A
  err : E → Outcome E A

abbrev pub Effect : Type 0 → Type 0 → Type 0 → Type 0
Effect S E A = S → Outcome E A × S

module _ {S E A : Type 0} where
  abbrev pub pure : A → Effect S E A
  pure a s = (ok a, s)

  abbrev pub raise : E → Effect S E A
  raise e s = (err e, s)

  abbrev pub gets : (S → A) → Effect S E A
  gets f s = (ok (f s), s)

  abbrev pub or_raise : Option A → E → Effect S E A
  or_raise none e = raise e
  or_raise (some a) _ = pure a

module _ {S E : Type 0} where
  abbrev pub raise_if : Bool → E → Effect S E (Unit {0})
  raise_if c e s = (if c then err e else ok tt, s)

  abbrev pub write : (S → S) → Effect S E (Unit {0})
  write f s = (ok tt, f s)

  infixl 5 ◌>>=◌ ◌>>◌
  abbrev pub ◌>>=◌ : {A B : Type 0} → Effect S E A → (A → Effect S E B) → Effect S E B
  ◌>>=◌ m f s = let (r, s') = m s in elim r [ ok a ↦ f a s' | err e ↦ (err e, s') ]

  abbrev pub ◌>>◌ : {A B : Type 0} → Effect S E A → Effect S E B → Effect S E B
  m >> k = m >>= λ _. k
