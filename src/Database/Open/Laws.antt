-- ===== src/Database/Open/Laws.antt =====
-- What `New` has opened and closed when it returns.
use mkrepo.Base.{ℕ, String, ◌≡◌, refl, ap, ◌⊎◌, inl, inr, Option, some}
use mkrepo.Base.{List, ◌∷◌, ok, err, Bool-cases, Option-cases, Result-cases}
use mkrepo.Base.Program.{finish, attempt, modify, deferring, deferring_on_err, ◌>>=◌}
use mkrepo.Database.Db.{Db, cleanup}
use mkrepo.Database.Open.{
  Host, Handle, Opened, OpenError, pool_opened, pool_closed, work_dir_opened, work_dir_closed,
}
use mkrepo.Database.Open.{migrated, clean, migrate_and_clean, with_pool, new, handle}

-- The handles that a failure leaves were all closed.
abbrev pub AllClosed : List Handle → List Handle → Type 0
AllClosed before after =
    (after ≡ before)
    ⊎ (after ≡ pool_closed ∷ pool_opened ∷ before)
    ⊎ (after ≡ pool_closed ∷ work_dir_closed ∷ work_dir_opened ∷ pool_opened ∷ before)

-- The migrations apply and the first cleanup, with its two times, succeeds.
pub record IsPrepared (migrate : Db → Option Db) (now later : ℕ) (db db' : Db) : Type 0 where
  pub applied : Db
  pub migrates : migrate db ≡ some applied
  pub cleans : cleanup now later applied ≡ (ok tt, db')

module _ (host : Host) (uri : String) where
  migrated-cases :
      (s : Opened)
      → let (r, s') = migrate_and_clean host uri s in
        (s'.handles ≡ s.handles)
        × (((e : OpenError) × (r ≡ err e))
            ⊎ ((r ≡ ok tt) × IsPrepared (host.migrate uri) host.now host.later s.db s'.db))
  unfolding migrate_and_clean attempt migrated clean ◌>>=◌
  migrated-cases s = elim (Bool-cases host.has_client) [
    | inr missing ↦ rw missing (refl, inl (_, refl))
    | inl there ↦ elim (Option-cases (host.migrate uri s.db)) [
      | inl refused ↦ rw (there, refused) (refl, inl (_, refl))
      | inr (applied, migrates) ↦ elim (Result-cases (cleanup host.now host.later applied).0) [
        | inr (e, bad) ↦ rw (there, migrates, bad) (refl, inl (_, refl))
        | inl (u, good) ↦
            rw (there, migrates, good)
              (
                refl,
                inr (
                  refl,
                  record {
                    applied = applied;
                    migrates = migrates;
                    cleans = λ i. (good i, (cleanup host.now host.later applied).1);
                  },
                ),
              )
      ]
    ]
  ]

  -- What stands behind the pool: the working directory is closed if it was opened.
  with_pool-cases :
      (s : Opened)
      → let (r, s') = with_pool host uri s in
        ((e : OpenError) × (r ≡ err e)
          × ((s'.handles ≡ s.handles)
              ⊎ (s'.handles ≡ work_dir_closed ∷ work_dir_opened ∷ s.handles)))
        ⊎ ((r ≡ ok tt)
            × (s'.handles ≡ work_dir_closed ∷ work_dir_opened ∷ s.handles)
            × IsPrepared (host.migrate uri) host.now host.later s.db s'.db)
  unfolding with_pool attempt modify deferring ◌>>=◌
  with_pool-cases s = elim (Bool-cases host.has_work_dir) [
    | inr missing ↦ rw missing (inl (_, refl, inl refl))
    | inl there ↦
        let (same, cases) = migrated-cases (handle work_dir_opened s) in
        let closed = ap (λ hs. work_dir_closed ∷ hs) same in
        elim cases [
          | inl (e, bad) ↦ rw there (inl (e, bad, inr closed))
          | inr (good, prepared) ↦ rw there (inr (good, closed, prepared))
        ]
  ]

  -- When `New` fails, whatever it had opened before is closed again, the directory before the pool.
  -- When it succeeds, it returns the decoded key, the migrations were applied and the first cleanup
  -- has succeeded on what they left; the directory of the migrations is closed, and the pool is open.
  pub new_lem :
      (encryption_key : String) (s : Opened)
      → let (r, s') = new host uri encryption_key s in
        ((e : OpenError) × (r ≡ err e) × AllClosed s.handles s'.handles)
        ⊎ ((key : String) × (r ≡ ok key)
            × (host.decode_string encryption_key ≡ some key)
            × (s'.handles ≡ work_dir_closed ∷ work_dir_opened ∷ pool_opened ∷ s.handles)
            × IsPrepared (host.migrate uri) host.now host.later s.db s'.db)
  unfolding new attempt modify finish deferring_on_err ◌>>=◌
  new_lem encryption_key s = elim (Option-cases (host.decode_string encryption_key)) [
    | inl bad ↦ rw bad (inl (_, refl, inl refl))
    | inr (key, decoded) ↦ elim (Bool-cases (host.has_pool uri)) [
      | inr missing ↦ rw (decoded, missing) (inl (_, refl, inl refl))
      | inl there ↦ elim (with_pool-cases (handle pool_opened s)) [
        | inl (e, bad, inl same) ↦
            rw (decoded, there, bad) (inl (_, refl, inr (inl (ap (λ hs. pool_closed ∷ hs) same))))
        | inl (e, bad, inr closed) ↦
            rw (decoded, there, bad) (inl (_, refl, inr (inr (ap (λ hs. pool_closed ∷ hs) closed))))
        | inr (good, closed, prepared) ↦
            rw (decoded, there, good) (inr (_, refl, refl, closed, prepared))
      ]
    ]
  ]
