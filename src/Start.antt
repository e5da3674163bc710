-- ===== src/Start.antt =====
-- cmd/mkrepo/main.go: `main`, `run` and `runServer`. The files outside the program, the flags, the
-- collector that runs beside the server, and how the server ends are parameters.
pub mod Laws
pub mod Build
mod Tests
use mkrepo.Base.{String, ◌<>◌, Bool, true, false, Option, none, some, List, [], ◌∷◌, ◌==◌, ℕ}
use mkrepo.Base.{if◌then◌else◌, Result, ok, err, or_err, map_err}
use mkrepo.Base.Dict.{Dict}
use mkrepo.Base.Program.{Program, finish, attempt, deferring, ◌>>=◌, ◌>>◌}
use mkrepo.Config
use mkrepo.Config.{Yaml, Config, load_config}
use mkrepo.Database.Open
use mkrepo.Database.Open.{Opened, new, close}
use mkrepo.Service.Gitignore.{Files, prepare_gitignores}
use mkrepo.Service.License.{License, Licenses}
use mkrepo.Service.License.Parse.{parse_licenses_from_bytes}
use mkrepo.Service.Template.{MkrepoFile, FileSystems, prepare_templates}

-- How `runServer` comes out of its `select`: `ListenAndServe` returns `ErrServerClosed` or another
-- error, or a signal comes and `Shutdown` succeeds or not.
pub data End : Type 0 where
  server_closed listen_failed shut_down shutdown_failed : End

-- `no_print` is `ErrNoPrint`; a panic ends the process at once, and so do
-- flags that are wrong or ask for help, with a status of their own.
pub data StartError : Type 0 where
  no_print panicked : StartError
  flags_exit : ℕ → StartError
  unknown_command : String → StartError

pub data Output : Type 0 where
  nothing usage version license readme server_usage : Output
  printed_error : String → Output

-- A directory of the configuration takes the place of the embedded files.
pub record Machine (FS Schema Template : Type 0) : Type 0 where
  pub yaml : Yaml
  pub host : Config.Host
  pub database : Open.Host
  pub embedded_gitignores : Files
  pub gitignores_at : String → Files
  pub license_config : String
  pub unmarshal : String → Result String (Dict License)
  pub embedded_licenses : String → Result String Template
  pub licenses_at : String → String → Result String Template
  pub files : FileSystems FS
  pub decode : String → Result String (MkrepoFile Schema)
  pub embedded_templates : FS
  pub templates_at : String → FS
  pub parse_flags : List String → Result ℕ String
  pub end : End

abbrev pub Starting : Type 0 → Type 0
Starting = Program Opened StartError

-- The error is logged.
abbrev pub logged : {E A : Type 0} → Result E A → Result StartError A
logged r = map_err (λ _. no_print) r

-- `if dir != "" { fs = os.DirFS(dir) }`
abbrev pub dir_or : {A : Type 0} → String → (String → A) → A → A
dir_or dir at_dir embedded = if dir == "" then embedded else at_dir dir

abbrev pub ended : End → Result StartError Unit
ended server_closed = ok tt
ended listen_failed = err no_print
ended shut_down = ok tt
ended shutdown_failed = err no_print

module _ {FS Schema Template : Type 0} (m : Machine FS Schema Template) where
  open_database : Config → Starting String
  open_database cfg s =
      let (r, s') = new m.database cfg.database_uri cfg.secret_key s in (logged r, s')

  -- From the file systems to the end of the server.
  unfoldable pub prepare_and_serve : Config → Starting Unit
  prepare_and_serve cfg = do
    gitignores ← attempt (
        logged
          (prepare_gitignores (dir_or cfg.gitignores_dir m.gitignores_at m.embedded_gitignores)))
    licenses ← attempt (
        logged (
          parse_licenses_from_bytes (dir_or cfg.licenses_dir m.licenses_at m.embedded_licenses)
            m.unmarshal m.license_config))
    count ← attempt (
        logged (
          prepare_templates m.files m.decode
            (dir_or cfg.templates_dir m.templates_at m.embedded_templates)))
    attempt (ended m.end)

  unfoldable pub run_server : String → Starting Unit
  unfolding open_database
  run_server config_file = do
    cfg ← attempt (logged (load_config m.yaml m.host config_file))
    key ← open_database cfg
    deferring close (prepare_and_serve cfg)

  command_of : String → List String → Starting Output
  command_of command rest =
      if command == "help"
      then finish usage
      else if command == "version"
      then finish version
      else if command == "license"
      then finish license
      else if command == "readme"
      then finish readme
      else if command == "server"
      then (do
        config_file ← attempt (map_err flags_exit (m.parse_flags rest))
        run_server config_file
        finish nothing)
      else attempt (err (unknown_command command))

  -- The arguments with the name of the program. The usage shows that name, and without it panics.
  unfoldable pub run : List String → Starting Output
  unfolding command_of
  run [] = attempt (err panicked)
  run (program ∷ []) = finish usage
  run (program ∷ command ∷ rest) = command_of command rest

-- The status that the process ends with, and what it has printed.
abbrev pub exit_of : Result StartError Output → ℕ × Output
exit_of (ok output) = (0, output)
exit_of (err no_print) = (1, nothing)
exit_of (err (flags_exit status)) = (status, server_usage)
exit_of (err panicked) = (2, nothing)
exit_of (err (unknown_command c)) = (1, printed_error ("Error: unknown command: " <> c))

unfoldable pub main :
    {FS Schema Template : Type 0}
    → Machine FS Schema Template
    → List String
    → Opened
    → (ℕ × Output) × Opened
main m args s = let (r, s') = run m args s in (exit_of r, s')
