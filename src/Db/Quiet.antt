-- ===== src/Db/Quiet.antt =====
-- Actions that only read: what follows one of them runs on the state before it.
use buyseekk.Prelude.{◌≡◌, refl, ap}
use buyseekk.Db.Schema.{Db}
use buyseekk.Db.Errors.{Error}
use buyseekk.Db.Action.{Result, ok, err, Action, ◌>>=◌}

abbrev pub IsQuiet : {A : Type 0} → Action A → Type 0
IsQuiet m = (db : Db) → (m db).1 ≡ db

module _ {A B : Type 0} where
  -- What a computation that begins with a read leaves, by whether the read threw.
  pub quiet_bind :
      (P : Db → Type 0) (m : Action A) (f : A → Action B) (db : Db)
      → IsQuiet m
      → P db
      → ((a : A) → (m db).0 ≡ ok a → P (f a db).1)
      → P ((m >>= f) db).1
  quiet_bind P m f db q stop go = after (m db).0 (m db).1 refl (q db)
    where
      after :
          (r : Result A) (db' : Db)
          → (m db).0 ≡ r
          → db' ≡ db
          → let out : Result B × Db = elim r [ ok a ↦ f a db' | err e ↦ (err e, db') ] in P out.1
      after (ok a) db' e same = rw same (go a e)
      after (err x) db' e same = rw same stop

  -- A success of the whole is a success of the read, and the whole is the rest on the same state.
  pub quiet_bind-eq-ok :
      (m : Action A) (f : A → Action B) (db : Db) {b : B}
      → IsQuiet m
      → ((m >>= f) db).0 ≡ ok b
      → (a : A) × ((m db).0 ≡ ok a) × ((m >>= f) db ≡ f a db)
  quiet_bind-eq-ok m f db {b} q h = after (m db).0 (m db).1 refl (q db) h
    where
      after :
          (r : Result A) (db' : Db)
          → (m db).0 ≡ r
          → db' ≡ db
          → let out : Result B × Db = elim r [ ok a ↦ f a db' | err e ↦ (err e, db') ] in
            out.0 ≡ ok b → (a : A) × ((m db).0 ≡ ok a) × (out ≡ f a db)
      after (ok a) db' e same h = (a, e, rw same)
      after (err x) db' e same h = absurd (cc h)

  -- A computation whose first step is known.
  pub bind_of_ok :
      (m : Action A) (f : A → Action B) (db : Db) {a : A} {db' : Db}
      → m db ≡ (ok a, db')
      → (m >>= f) db ≡ f a db'
  bind_of_ok m f db e =
      ap
        (λ (x : Result A × Db).
          let out : Result B × Db = elim x.0 [ ok a ↦ f a x.1 | err w ↦ (err w, x.1) ] in out)
        e

  pub bind_of_err :
      (m : Action A) (f : A → Action B) (db : Db) {w : Error} {db' : Db}
      → m db ≡ (err w, db')
      → (m >>= f) db ≡ (err w, db')
  bind_of_err m f db e =
      ap
        (λ (x : Result A × Db).
          let out : Result B × Db = elim x.0 [ ok a ↦ f a x.1 | err w ↦ (err w, x.1) ] in out)
        e

  pub bind-IsQuiet :
      (m : Action A) (f : A → Action B) → IsQuiet m → ((a : A) → IsQuiet (f a)) → IsQuiet (m >>= f)
  bind-IsQuiet m f q r db = quiet_bind (λ db'. db' ≡ db) m f db q refl (λ a h. r a db)
