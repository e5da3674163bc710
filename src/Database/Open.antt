-- ===== src/Database/Open.antt =====
-- internal/database/database.go: `New` and `Close`. What the key's decoder, the pool and the migrations
-- answer are parameters.
pub mod Laws
use mkrepo.Base.{
  ℕ, String, Bool, true, false, Option, List, [], ◌∷◌, Result, ok, err, or_err, map_err,
}
use mkrepo.Base.{refuse, not, none, some}
use mkrepo.Base.Program.{Program, finish, attempt, modify, deferring, deferring_on_err, ◌>>=◌, ◌>>◌}
use mkrepo.Database.{Tables, DbError}
use mkrepo.Database.Db.{Db, cleanup}

pub data OpenError : Type 0 where
  bad_encryption_key no_pool no_work_dir no_client not_migrated not_cleaned : OpenError

-- What is opened and has to be closed.
pub data Handle : Type 0 where
  pool_opened pool_closed work_dir_opened work_dir_closed : Handle

-- The database, and what was opened and closed, the last one first.
pub record Opened : Type 0 where
  pub db : Db
  pub handles : List Handle

abbrev pub handle : Handle → Opened → Opened
handle h s = record s { handles = h ∷ s.handles }

-- `pool.Close()` and `workDir.Close()`
abbrev pub close : Opened → Opened
close = handle pool_closed

abbrev close_work_dir : Opened → Opened
close_work_dir = handle work_dir_closed

-- `decode_string` is `hex.DecodeString`; `has_pool`, `has_work_dir` and `has_client` that the three
-- constructors succeed; `migrate` what the migrations leave of the database, if they apply; and `now`
-- and `later` are the times of the statements of the cleanup.
pub record Host : Type 0 where
  pub decode_string : String → Option String
  pub has_pool : String → Bool
  pub has_work_dir : Bool
  pub has_client : Bool
  pub migrate : String → Db → Option Db
  pub now : ℕ
  pub later : ℕ

abbrev pub Opening : Type 0 → Type 0
Opening = Program Opened OpenError

migrated : Option Db → Opening Unit
migrated none s = (err not_migrated, s)
migrated (some db) s = (ok tt, record s { db = db })

clean : ℕ → ℕ → Opening Unit
clean now later s =
    let (r, db) = cleanup now later s.db in (map_err (λ _. not_cleaned) r, record s { db = db })

module _ (host : Host) (connection_uri : String) where
  -- From the working directory of the migrations on.
  migrate_and_clean : Opening Unit
  unfolding migrated clean
  migrate_and_clean = do
    attempt (refuse (not host.has_client) no_client)
    λ s. migrated (host.migrate connection_uri s.db) s
    clean host.now host.later

  with_pool : Opening Unit
  unfolding migrate_and_clean
  with_pool = do
    attempt (refuse (not host.has_work_dir) no_work_dir)
    modify (handle work_dir_opened)
    deferring close_work_dir migrate_and_clean

  -- It returns the key that the tokens are encrypted with.
  unfoldable pub new : String → Opening String
  unfolding with_pool
  new encryption_key = do
    key ← attempt (or_err (host.decode_string encryption_key) bad_encryption_key)
    attempt (refuse (not (host.has_pool connection_uri)) no_pool)
    modify (handle pool_opened)
    deferring_on_err close with_pool
    finish key
