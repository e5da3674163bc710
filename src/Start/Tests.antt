-- ===== src/Start/Tests.antt =====
-- The theorems on the start of the program, on a concrete machine.
use mkrepo.Base.{String, true, ◌≡◌, ◌⊎◌, none, some, [], ◌∷◌, Result, ok, err}
use mkrepo.Database.{empty_tables}
use mkrepo.Database.Db.{healthy}
use mkrepo.Database.Open
use mkrepo.Database.Open.{Opened, OpenError, new, pool_opened, work_dir_opened, work_dir_closed}
use mkrepo.Database.Open.Laws.{AllClosed, IsPrepared, new_lem}
use mkrepo.Service.Gitignore.{Files}
use mkrepo.Service.Template.{MkrepoFile}
use mkrepo.Start.{Machine, shut_down, main}
use mkrepo.Start.Laws.{LeavesClosed, main-closes}

abbrev host : Open.Host
host = record {
  decode_string = λ text. some text;
  has_pool = λ uri. true;
  has_work_dir = true;
  has_client = true;
  migrate = λ uri db. some db;
  now = 5;
  later = 6;
}

abbrev no_files : Files
no_files = record { read_dir = ok []; open_file = λ name. none }

abbrev decode : String → Result String (MkrepoFile Unit)
decode text = ok (record { description = none; lang = none; schema = none })

abbrev machine : Machine Unit Unit Unit
machine = record {
  yaml = record { decode = λ text cfg. some cfg; encode = λ cfg. some "" };
  host = record { read_file = λ name. some ""; expand_env = λ text. text };
  database = host;
  embedded_gitignores = no_files;
  gitignores_at = λ dir. no_files;
  license_config = "";
  unmarshal = λ text. ok [];
  embedded_licenses = λ name. ok tt;
  licenses_at = λ dir name. ok tt;
  files = record {
    read_dir = λ fs. ok [];
    sub = λ fs name. ok fs;
    open_file = λ fs name. err "no";
  };
  decode = decode;
  embedded_templates = tt;
  templates_at = λ dir. tt;
  parse_flags = λ flags. ok "config.yaml";
  end = shut_down;
}

abbrev before : Opened
before = record { db = healthy empty_tables; handles = [] }

new_lem_example :
    let answer = new host "postgres://" "00ff" before in
    ((e : OpenError) × (answer.0 ≡ err e) × AllClosed [] answer.1.handles)
    ⊎ ((key : String) × (answer.0 ≡ ok key)
        × (some "00ff" ≡ some key)
        × (answer.1.handles ≡ work_dir_closed ∷ work_dir_opened ∷ pool_opened ∷ [])
        × IsPrepared (host.migrate "postgres://") 5 6 before.db answer.1.db)
new_lem_example = new_lem host "postgres://" "00ff" before

main-closes_example : LeavesClosed [] (main machine ("mkrepo" ∷ "server" ∷ []) before).1.handles
main-closes_example = main-closes machine ("mkrepo" ∷ "server" ∷ []) before
