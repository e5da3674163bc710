-- ===== src/Start/Laws.antt =====
-- When the program succeeds, and what it leaves open.

use mkrepo.Base.{String, ◌≡◌, refl, ap, ◌∙◌, ◌⊎◌, inl, inr}
use mkrepo.Base.{List, [], ◌∷◌, Result, ok, err, Bool-cases, Result-cases, ok-injective, ◌==◌, ℕ}
use mkrepo.Base.Program.{Program, finish, attempt, deferring, ◌>>=◌}
use mkrepo.Config.{Config, load_config}
use mkrepo.Database.Open.{
  Opened, Handle, pool_opened, pool_closed, work_dir_opened, work_dir_closed, close,
}
use mkrepo.Database.Open.Laws.{AllClosed, new_lem}
use mkrepo.Start.{
  Machine, StartError, Output, logged, open_database, prepare_and_serve, run_server, command_of,
  run, main,
}
use mkrepo.Start.{Starting, usage, version, license, readme, nothing, flags_exit}
use mkrepo.Base.{map_err}

-- The pool and the directory were opened and closed, if they were opened, and nothing else.
abbrev pub LeavesClosed : List Handle → List Handle → Type 0
LeavesClosed before after =
    AllClosed before after
    ⊎ (after ≡ pool_closed ∷ work_dir_closed ∷ work_dir_opened ∷ pool_opened ∷ before)

-- A piece that succeeds is made of two that do.
>>=-ok :
    {S E A B : Type 0} (p : Program S E A) (f : A → Program S E B) (s : S) {b : B}
    → ((p >>= f) s).0 ≡ ok b
    → (a : A) × ((p s).0 ≡ ok a) × ((f a (p s).1).0 ≡ ok b)
unfolding ◌>>=◌
>>=-ok p f s e = elim (Result-cases (p s).0) [
  | inl (a, good) ↦ (a, good, rw good at e)
  | inr (x, bad) ↦ let k = rw bad at e in cc
]

logged-ok : {E A : Type 0} (r : Result E A) {a : A} → logged r ≡ ok a → r ≡ ok a
logged-ok (ok x) e = ap ok (ok-injective {E = StartError} e)
logged-ok (err x) e = cc

-- A piece that leaves the state as it is.
abbrev Keeps : {S E A : Type 0} → Program S E A → Type 0
Keeps {S} p = (s : S) → (p s).1 ≡ s

attempt-Keeps : {S E A : Type 0} (r : Result E A) → Keeps {S = S} (attempt r)
unfolding attempt
attempt-Keeps r s = refl

>>=-Keeps :
    {S E A B : Type 0} (p : Program S E A) (f : A → Program S E B)
    → Keeps p
    → ((a : A) → Keeps (f a))
    → Keeps (p >>= f)
unfolding ◌>>=◌
>>=-Keeps p f first next s = elim (Result-cases (p s).0) [
  | inl (a, good) ↦ rw good (next a (p s).1 ∙ first s)
  | inr (x, bad) ↦ rw bad (first s)
]

module _ {FS Schema Template : Type 0} (m : Machine FS Schema Template) where
  prepare_and_serve-Keeps : (cfg : Config) → Keeps (prepare_and_serve m cfg)
  unfolding prepare_and_serve
  prepare_and_serve-Keeps cfg = >>=-Keeps _ _ (attempt-Keeps _) λ gitignores.
      >>=-Keeps _ _ (attempt-Keeps _)
        λ licenses. >>=-Keeps _ _ (attempt-Keeps _) λ count. attempt-Keeps _

  serving-closed :
      (cfg : Config) (before : List Handle) (s : Opened)
      → s.handles ≡ work_dir_closed ∷ work_dir_opened ∷ pool_opened ∷ before
      → LeavesClosed before (deferring close (prepare_and_serve m cfg) s).1.handles
  unfolding deferring
  serving-closed cfg before s open_pool = inr (
      ap (λ x. pool_closed ∷ x.handles) (prepare_and_serve-Keeps cfg s)
      ∙ ap (λ x. pool_closed ∷ x) open_pool)

  with_config-closed :
      (cfg : Config) (s : Opened)
      → LeavesClosed s.handles
          ((open_database m cfg >>= λ key. deferring close (prepare_and_serve m cfg)) s).1.handles
  unfolding open_database ◌>>=◌
  with_config-closed cfg s = elim (new_lem m.database cfg.database_uri cfg.secret_key s) [
    | inl (e, bad, closed) ↦ rw bad (inl closed)
    | inr (key, good, _, opened, _) ↦ rw good (serving-closed cfg s.handles _ opened)
  ]

  run_server-closed :
      (config_file : String) (s : Opened)
      → LeavesClosed s.handles (run_server m config_file s).1.handles
  unfolding run_server attempt ◌>>=◌
  run_server-closed config_file s = elim (Result-cases (load_config m.yaml m.host config_file)) [
    | inl (cfg, loaded) ↦ rw loaded (with_config-closed cfg s)
    | inr (e, bad) ↦ rw bad (inl (inl refl))
  ]

  -- What is opened is closed.
  abbrev Closes : {A : Type 0} → Starting A → Type 0
  Closes p = (s : Opened) → LeavesClosed s.handles (p s).1.handles

  finish-Closes : (o : Output) → Closes (finish o)
  unfolding finish
  finish-Closes o s = inl (inl refl)

  server-Closes : (config_file : String) → Closes (run_server m config_file >>= λ u. finish nothing)
  unfolding finish ◌>>=◌
  server-Closes config_file s = elim (Result-cases (run_server m config_file s).0) [
    | inl (u, good) ↦ rw good (run_server-closed config_file s)
    | inr (e, bad) ↦ rw bad (run_server-closed config_file s)
  ]

  flags-Closes :
      (parsed : Result ℕ String)
      → Closes (
          attempt (map_err flags_exit parsed) >>= λ config_file.
          run_server m config_file >>= λ u. finish nothing)
  flags-Closes (ok config_file) s = unfold attempt ◌>>=◌ in server-Closes config_file s
  flags-Closes (err status) s = unfold attempt ◌>>=◌ in inl (inl refl)

  command_of-Closes : (command : String) (rest : List String) → Closes (command_of m command rest)
  unfolding command_of attempt
  command_of-Closes command rest = elim (Bool-cases (command == "help")) [
    | inl is ↦ rw is (finish-Closes usage)
    | inr a ↦ elim (Bool-cases (command == "version")) [
      | inl is ↦ rw (a, is) (finish-Closes version)
      | inr b ↦ elim (Bool-cases (command == "license")) [
        | inl is ↦ rw (a, b, is) (finish-Closes license)
        | inr c ↦ elim (Bool-cases (command == "readme")) [
          | inl is ↦ rw (a, b, c, is) (finish-Closes readme)
          | inr d ↦ elim (Bool-cases (command == "server")) [
            | inl is ↦ rw (a, b, c, d, is) (flags-Closes (m.parse_flags rest))
            | inr other ↦ rw (a, b, c, d, other) (λ s. inl (inl refl))
          ]
        ]
      ]
    ]
  ]

  -- Whatever the arguments, and wherever the program fails, the pool and the directory of the
  -- migrations are closed when it ends if they were opened, and no other handle was touched.
  pub main-closes :
      (args : List String) (s : Opened) → LeavesClosed s.handles (main m args s).1.handles
  unfolding main run attempt finish
  main-closes [] s = inl (inl refl)
  main-closes (program ∷ []) s = inl (inl refl)
  main-closes (program ∷ command ∷ rest) s = command_of-Closes command rest s
