-- ===== src/Handler/Action.antt =====
-- A handler's work on the database, that may end early with an error or an answer.
use mkrepo.Base.{◌≡◌, refl, ap, ok-injective, Result, ok, err, map_err}
use mkrepo.Database.{Statement}
use mkrepo.Database.Db.{Db, run}
use mkrepo.Database.Db.Laws.{run-ok}

abbrev pub Action : Type 0 → Type 0 → Type 0
Action E A = Db → Result E A × Db

module _ {E A : Type 0} where
  unfoldable pub pure : A → Action E A
  pure a db = (ok a, db)

  unfoldable pub lift : Result E A → Action E A
  lift r db = (r, db)

  -- A statement, and what is returned if it fails.
  unfoldable pub query : Statement A → E → Action E A
  query st e db = let (r, db') = run st db in (map_err (λ _. e) r, db')

module _ {E A B : Type 0} where
  abbrev pub continue : Result E A → (A → Action E B) → Action E B
  continue (ok a) f db = f a db
  continue (err e) f db = (err e, db)

  infixl 5 ◌>>=◌ ◌>>◌
  -- Opening this opens `pure`, `lift` and `query` too.
  unfoldable pub ◌>>=◌ : Action E A → (A → Action E B) → Action E B
  unfolding pure lift query
  ◌>>=◌ m f db = let (r, db') = m db in continue r f db'

  abbrev pub ◌>>◌ : Action E A → Action E B → Action E B
  m >> k = m >>= λ _. k

  continue-eq-ok :
      (r : Result E A) (f : A → Action E B) (db : Db) {b : B} {db' : Db}
      → continue r f db ≡ (ok b, db')
      → (a : A) × (r ≡ ok a) × (f a db ≡ (ok b, db'))
  continue-eq-ok (ok a) f db h = (a, refl, h)
  continue-eq-ok (err e) f db h = cc

  -- A sequence that succeeds is made of two parts that do.
  pub >>=-eq-ok :
      (m : Action E A) (f : A → Action E B) (db : Db) {b : B} {db' : Db}
      → (m >>= f) db ≡ (ok b, db')
      → (a : A) × (db₁ : Db) × (m db ≡ (ok a, db₁)) × (f a db₁ ≡ (ok b, db'))
  unfolding ◌>>=◌
  >>=-eq-ok m f db h =
      let (a, e, g) = continue-eq-ok (m db).0 f (m db).1 h in (a, (m db).1, λ i. (e i, (m db).1), g)

module _ {E A : Type 0} where
  map_err-ok : {F : Type 0} (f : F → E) (r : Result F A) {a : A} → map_err f r ≡ ok a → r ≡ ok a
  map_err-ok f (ok a) h = cc
  map_err-ok f (err e) h = cc

  -- A statement that succeeds, seen on the tables.
  pub query-ok :
      (st : Statement A) (e : E) (db : Db) {a : A} {db' : Db}
      → query st e db ≡ (ok a, db')
      → st db.tables ≡ ok (a, db'.tables)
  unfolding query
  query-ok st e db {a} {db'} h =
      run-ok st db (λ i. (map_err-ok (λ _. e) (run st db).0 (ap (λ p. p.0) h) i, (h i).1))

  pub lift-ok :
      (r : Result E A) (db : Db) {a : A} {db' : Db}
      → lift r db ≡ (ok a, db')
      → (r ≡ ok a) × (db ≡ db')
  unfolding lift
  lift-ok r db h = (ap (λ p. p.0) h, ap (λ p. p.1) h)

  pub pure-ok :
      (b : A) (db : Db) {a : A} {db' : Db} → pure {E = E} b db ≡ (ok a, db') → (b ≡ a) × (db ≡ db')
  unfolding pure
  pure-ok b db h = (ok-injective {E = E} (ap (λ p. p.0) h), ap (λ p. p.1) h)
