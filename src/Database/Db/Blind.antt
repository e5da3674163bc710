-- ===== src/Database/Db/Blind.antt =====
-- A call on databases that hold the same rows.
use mkrepo.Base.{Bool, true, false, ◌≡◌, refl, List, [], ◌∷◌, Result, ok, err, ap}
use mathlib.Core.Path.{subst}
use mkrepo.Database.{Tables, DbError, Statement}
use mkrepo.Database.Constraints.{IsConsistent}
use mkrepo.Database.Rows.Same.{SameRows, Alike, IsBlind}
use mkrepo.Database.Db.{Db, run, attempt, answer}

-- The same rows, and the same faults to come.
pub record SameDb (db db' : Db) : Type 0 where
  pub rows : SameRows db.tables db'.tables
  pub faults : db.faults ≡ db'.faults

abbrev SameAnswer : {A : Type 0} → Result DbError A × Db → Result DbError A × Db → Type 0
SameAnswer x y = (x.0 ≡ y.0) × SameDb x.1 y.1

module _ {A : Type 0} where
  answer-Alike :
      (r r' : Result DbError (A × Tables)) (db db' : Db)
      → Alike r r'
      → SameDb db db'
      → SameAnswer (answer r db) (answer r' db')
  answer-Alike (ok (a, t)) (ok (b, u)) db db' h same =
      (ap ok h.0, record { rows = h.1; faults = same.faults })
  answer-Alike (err e) (err f) db db' h same = (ap err h, same)
  answer-Alike (ok x) (err f) db db' h same = absurd h
  answer-Alike (err e) (ok y) db db' h same = absurd h

  attempt-Alike :
      (faults : List Bool) (st : Statement A) (t u : Tables)
      → Alike (st t) (st u)
      → SameRows t u
      → SameAnswer (attempt faults st t) (attempt faults st u)
  unfolding attempt
  attempt-Alike [] st t u h same =
      answer-Alike (st t) (st u) _ _ h (record { rows = same; faults = refl })
  attempt-Alike (true ∷ faults) st t u h same = (refl, record { rows = same; faults = refl })
  attempt-Alike (false ∷ faults) st t u h same =
      answer-Alike (st t) (st u) _ _ h (record { rows = same; faults = refl })

  pub run-SameDb :
      (st : Statement A) (db db' : Db)
      → IsBlind st
      → IsConsistent db.tables
      → SameDb db db'
      → ((run st db).0 ≡ (run st db').0) × SameDb (run st db).1 (run st db').1
  unfolding run
  run-SameDb st db db' blind c same =
      subst (λ fs. SameAnswer (attempt db.faults st db.tables) (attempt fs st db'.tables))
        same.faults
        (attempt-Alike db.faults st db.tables db'.tables
          (blind.alike db.tables db'.tables c same.rows) same.rows)
