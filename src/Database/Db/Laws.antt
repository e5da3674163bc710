-- ===== src/Database/Db/Laws.antt =====
-- A call on the database, seen on the tables.
use mkrepo.Base.{ℕ, Bool, true, false, ◌≡◌, refl, ◌⊎◌, inl, inr, List, [], ◌∷◌, Result, ok, err}
use mkrepo.Database.{
  Tables, DbError, connection, Statement, delete_expired_oauth2_states, delete_expired_sessions,
}
use mkrepo.Database.Steps.{Leaves}
use mkrepo.Database.Db.{Db, healthy, run, answer, attempt, after_states, cleanup}

module _ {A : Type 0} (st : Statement A) where
  answer-ok :
      (r : Result DbError (A × Tables)) (db : Db) {a : A} {db' : Db}
      → answer r db ≡ (ok a, db')
      → r ≡ ok (a, db'.tables)
  answer-ok (ok (a, t)) db h = cc
  answer-ok (err e) db h = cc

  attempt-ok :
      (faults : List Bool) (t : Tables) {a : A} {db' : Db}
      → attempt faults st t ≡ (ok a, db')
      → st t ≡ ok (a, db'.tables)
  unfolding attempt
  attempt-ok [] t h = answer-ok (st t) _ h
  attempt-ok (true ∷ faults) t h = cc
  attempt-ok (false ∷ faults) t h = answer-ok (st t) _ h

  -- A call that succeeds has run its statement.
  pub run-ok :
      (db : Db) {a : A} {db' : Db} → run st db ≡ (ok a, db') → st db.tables ≡ ok (a, db'.tables)
  unfolding run
  run-ok db h = attempt-ok db.faults db.tables h

  answer-cases :
      (r : Result DbError (A × Tables)) (db : Db)
      → Leaves r (answer r db).1.tables ⊎ ((answer r db).1.tables ≡ db.tables)
  answer-cases (ok (a, t)) db = inl refl
  answer-cases (err e) db = inr refl

  attempt-cases :
      (faults : List Bool) (t : Tables)
      → Leaves (st t) (attempt faults st t).1.tables ⊎ ((attempt faults st t).1.tables ≡ t)
  unfolding attempt
  attempt-cases [] t = answer-cases (st t) _
  attempt-cases (true ∷ faults) t = inr refl
  attempt-cases (false ∷ faults) t = answer-cases (st t) _

  -- A call leaves what its statement leaves, or what was there.
  pub run-cases :
      (db : Db) → Leaves (st db.tables) (run st db).1.tables ⊎ ((run st db).1.tables ≡ db.tables)
  unfolding run
  run-cases db = attempt-cases db.faults db.tables

  attempt-err :
      (faults : List Bool) (t : Tables) {e : DbError}
      → st t ≡ err e
      → (e' : DbError) × ((attempt faults st t).0 ≡ err e')
  unfolding attempt
  attempt-err [] t {e} h = (e, rw h refl)
  attempt-err (true ∷ faults) t h = (connection, refl)
  attempt-err (false ∷ faults) t {e} h = (e, rw h refl)

  -- A call whose statement fails, fails.
  pub run-err :
      (db : Db) {e : DbError} → st db.tables ≡ err e → (e' : DbError) × ((run st db).0 ≡ err e')
  unfolding run
  run-err db h = attempt-err db.faults db.tables h

-- On a connection without faults a call does what its statement does.
pub run-healthy :
    {A : Type 0} (st : Statement A) (t : Tables) {a : A} {t' : Tables}
    → st t ≡ ok (a, t')
    → run st (healthy t) ≡ (ok a, healthy t')
unfolding run
run-healthy st t h = rw h

answer-faults :
    {A : Type 0} (r : Result DbError (A × Tables)) (db : Db) → (answer r db).1.faults ≡ db.faults
answer-faults (ok (a, t)) db = refl
answer-faults (err e) db = refl

-- A connection without faults stays without.
pub run-faults :
    {A : Type 0} (st : Statement A) (db : Db) → db.faults ≡ [] → (run st db).1.faults ≡ []
unfolding run
run-faults st db h = rw (h, attempt) (answer-faults (st db.tables) _)

-- A cleanup runs one or both of its statements.
pub cleanup-keeps_invariant :
    (I : Db → Type 0) (now later : ℕ) (db : Db)
    → ((d : Db) → I d → I (run (delete_expired_oauth2_states now) d).1)
    → ((d : Db) → I d → I (run (delete_expired_sessions later) d).1)
    → I db
    → I (cleanup now later db).1
unfolding cleanup
cleanup-keeps_invariant I now later db states sessions kept =
    second_statement (run (delete_expired_oauth2_states now) db).0 _ (states db kept)
  where
    second_statement : (r : Result DbError Unit) (d : Db) → I d → I (after_states r later d).1
    second_statement (ok u) d now_kept = sessions d now_kept
    second_statement (err e) d now_kept = now_kept
