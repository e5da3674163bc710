-- ===== src/Database/Db.antt =====
-- internal/database/database.go: the connection to the tables, `Cleanup` and `GarbageCollector`.
-- A connection may fail at any statement: `faults` tells for the statements to come which of them
-- the driver answers with an error, before it reaches the tables.
pub mod Laws
pub mod Collected
pub mod Blind
use mkrepo.Base.{ℕ, Bool, true, false, List, [], ◌∷◌, Result, ok, err}
use mkrepo.Database.{Tables, DbError, connection, Statement, delete_expired_oauth2_states}
use mkrepo.Database.{delete_expired_sessions}

pub record Db : Type 0 where
  pub tables : Tables
  pub faults : List Bool

-- A database whose connection does not fail.
abbrev pub healthy : Tables → Db
healthy t = record { tables = t; faults = [] }

-- A call on the database: its result, and the database after it.
abbrev pub Sql : Type 0 → Type 0
Sql A = Db → Result DbError A × Db

abbrev answer : {A : Type 0} → Result DbError (A × Tables) → Db → Result DbError A × Db
answer (ok (a, t)) db = (ok a, record db { tables = t })
answer (err e) db = (err e, db)

-- `q.db.Exec` and `q.db.QueryRow`.
attempt : {A : Type 0} → List Bool → Statement A → Tables → Result DbError A × Db
attempt [] st t = answer (st t) (record { tables = t; faults = [] })
attempt (true ∷ faults) st t = (err connection, record { tables = t; faults = faults })
attempt (false ∷ faults) st t = answer (st t) (record { tables = t; faults = faults })

unfoldable pub run : {A : Type 0} → Statement A → Sql A
unfolding attempt
run st db = attempt db.faults st db.tables

abbrev after_states : Result DbError Unit → ℕ → Db → Result DbError Unit × Db
after_states (ok u) now db = run (delete_expired_sessions now) db
after_states (err e) now db = (err e, db)

-- The two statements of `Cleanup`, each at its own time.
unfoldable pub cleanup : ℕ → ℕ → Sql Unit
unfolding run
cleanup now later db =
    let (r, db') = run (delete_expired_oauth2_states now) db in after_states r later db'

-- What the `select` of the collector receives: a tick, with the times of the two statements that
-- follow it, or the end of the context.
pub data Signal : Type 0 where
  tick : ℕ → ℕ → Signal
  done : Signal

-- The loop, as far as the signals go. The error of a cleanup is only logged.
unfoldable pub garbage_collector : List Signal → Db → Db
unfolding cleanup
garbage_collector [] db = db
garbage_collector (tick now later ∷ signals) db = garbage_collector signals (cleanup now later db).1
garbage_collector (done ∷ signals) db = db
