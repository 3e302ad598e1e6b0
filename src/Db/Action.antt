-- ===== src/Db/Action.antt =====
-- A service method: state and exceptions. What was written before a throw stays written, except
-- inside `$transaction`, which rolls back.
use buyseekk.Prelude.{Bool, true, false, Option, none, some, if◌then◌else◌}
use buyseekk.Db.Schema.{Db}
use buyseekk.Db.Errors.{Error}

pub data Result (A : Type 0) : Type 0 where
  ok : A → Result A
  err : Error → Result A

abbrev pub Action : Type 0 → Type 0
Action A = Db → Result A × Db

module _ {A : Type 0} where
  abbrev pub pure : A → Action A
  pure a db = (ok a, db)

  abbrev pub raise : Error → Action A
  raise e db = (err e, db)

  abbrev pub gets : (Db → A) → Action A
  gets f db = (ok (f db), db)

  abbrev pub or_raise : Option A → Error → Action A
  or_raise none e = raise e
  or_raise (some a) _ = pure a

  -- A transaction that throws leaves the database as it was.
  abbrev pub transaction : Action A → Action A
  transaction m db = let (r, db') = m db in elim r [ ok a ↦ (ok a, db') | err e ↦ (err e, db) ]

  -- `catch` of one error code, which throws another.
  abbrev pub rethrow : (Error → Error) → Action A → Action A
  rethrow f m db = let (r, db') = m db in elim r [ ok a ↦ (ok a, db') | err e ↦ (err (f e), db') ]

infixl 5 ◌>>=◌ ◌>>◌
abbrev pub ◌>>=◌ : {A B : Type 0} → Action A → (A → Action B) → Action B
◌>>=◌ m f db = let (r, db') = m db in elim r [ ok a ↦ f a db' | err e ↦ (err e, db') ]

abbrev pub ◌>>◌ : {A B : Type 0} → Action A → Action B → Action B
m >> k = m >>= λ _. k

abbrev pub raise_if : Bool → Error → Action (Unit {0})
raise_if c e db = (if c then err e else ok tt, db)

abbrev pub write : (Db → Db) → Action (Unit {0})
write f db = (ok tt, f db)

abbrev pub when : Bool → Action (Unit {0}) → Action (Unit {0})
when true m = m
when false m = pure tt

abbrev pub choose {ℓ} : {A : Type ℓ} → Bool → A → A → A
choose true a b = a
choose false a b = b
