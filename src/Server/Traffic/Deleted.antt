-- ===== src/Server/Traffic/Deleted.antt =====
-- After an account is deleted none of its cookies opens anything any more.
use mathlib.Core.Path.{subst}
use mkrepo.Base.{String, ◌≡◌, refl, sym, ap, ◌∙◌, some, List, ok}
use mkrepo.Base.Dict.{lookup}
use mkrepo.Base.{find}
use mkrepo.Database.{Session, has_session_id, delete_account}
use mkrepo.Database.Constraints.{IsConsistent}
use mkrepo.Database.Db.{Db, run}
use mkrepo.Database.Db.Laws.{run-ok}
use mkrepo.Service.Work.{History}
use mkrepo.Handler.{Account, Request, session_cookie_name}
use mkrepo.Handler.Session.{authenticate_session}
use mkrepo.Handler.Integrity.{handlers-IsConsistent}
use mkrepo.Handler.Action.{◌>>=◌}
use mkrepo.Handler.Login.{delete_account_handler}
use mkrepo.Handler.Middleware.{must_authenticate}
use mkrepo.Handler.Shut.{Shut}
use mkrepo.Database.Steps.{Leaves-ok, deletes}
use mkrepo.Server.{Site, RequestInputs, routes, handled, dispatched, chosen, serve_mux, new_server}
use mkrepo.Server.Mux.Pattern.Laws.{Allows}
use mkrepo.Server.Routes.Laws.{chosen_iff}
use mkrepo.Server.Laws.{with_session}
use mkrepo.Server.Traffic.{Event, traffic, NeverDraws}
use mkrepo.Server.Traffic.Refused.{IsRefused, revoked-Shut, Shut-IsRefused}
use mkrepo.Server.Traffic.Shut.{traffic-Shut}

-- The statement succeeds, and its tables are those that the handler leaves.
delete_account_handler_lem :
    (a : Account) (db : Db)
    → (run (delete_account a.id) db).0 ≡ ok tt
    → (delete_account_handler a db).1 ≡ (run (delete_account a.id) db).1
unfolding delete_account_handler ◌>>=◌
delete_account_handler_lem a db deleted = rw deleted refl

deleted-Shut :
    (a : Account) (x : Session) (db : Db)
    → IsConsistent db.tables
    → (run (delete_account a.id) db).0 ≡ ok tt
    → find (has_session_id x.id) db.tables.sessions ≡ some x
    → x.account_id ≡ a.id
    → Shut x.id (delete_account_handler a db).1
deleted-Shut a x db c deleted there own =
    let db' = (run (delete_account a.id) db).1 in
    let leaves = Leaves-ok (run-ok (delete_account a.id) db (λ i. (deleted i, db'))) in
    subst (Shut x.id) (sym (delete_account_handler_lem a db deleted))
      (revoked-Shut x.id db db' (deletes a.id leaves) (x, there, own) c)

module _ {Block Schema : Type 0} (site : Site Block Schema) where
  delete_route :
      (inputs : RequestInputs) (account : Account) (r : Request) (db : Db) (h : History)
      → chosen site inputs r ≡ some "GET /auth/delete-account"
      → (serve_mux site inputs (some account) r db h).db ≡ (delete_account_handler account db).1
  unfolding serve_mux dispatched handled routes lookup must_authenticate
  delete_route inputs account r db h route = rw (route, dispatched) refl

  -- On consistent tables, and once a GET or HEAD of /auth/delete-account with a session that
  -- authenticates has deleted its account in the database, no cookie of any of the account's sessions
  -- opens anything any more, whatever requests and cleanups come in between, whatever the remote
  -- services answer to each of them and whatever faults the database has, as long as no login draws the ID of that session again: any later request with it is answered as
  -- one of nobody, with the cookie cleared, and at a route that wants a login by sending the browser
  -- to the login page, without a call of the service.
  pub new_server_account_deleted :
      (other : Site Block Schema) (inputs later : RequestInputs) (r again : Request) (db db₁ : Db)
      (h : History) (id : String) (account : Account) (x : Session)
      (events : List (Event Block Schema))
      → IsConsistent db.tables
      → lookup session_cookie_name r.cookies ≡ some id
      → authenticate_session site.env inputs.auth id db ≡ (ok account, db₁)
      → Allows "GET" r.method
      → r.path ≡ "/auth/delete-account"
      → (run (delete_account account.id) db₁).0 ≡ ok tt
      → find (has_session_id x.id) db₁.tables.sessions ≡ some x
      → x.account_id ≡ account.id
      → NeverDraws x.id events
      → lookup session_cookie_name again.cookies ≡ some x.id
      → let run₁ = new_server site inputs r db h in
        let (db₂, h₂) = traffic events run₁.db run₁.history in
        IsRefused other later again db₂ h₂ x.id
  new_server_account_deleted other inputs later r again db db₁ h id account x events c sent good get
        at_path deleted there own never kept =
      let route = (chosen_iff site inputs r).2.1 (get, at_path) in
      let run₁ = new_server site inputs r db h in
      let (db₂, h₂) = traffic events run₁.db run₁.history in
      let c' : IsConsistent db₁.tables =
        subst (λ q. IsConsistent q.1.tables) good
          ((handlers-IsConsistent site.env db c).0 inputs.auth id) in
      let after : run₁.db ≡ (delete_account_handler account db₁).1 =
        ap (λ s. (s h).db) (with_session site inputs r db id account sent (ap (λ q. q.0) good))
        ∙ ap (λ q. (serve_mux site inputs (some account) r q.1 h).db) good
        ∙ delete_route inputs account r db₁ h route in
      let shut₁ : Shut x.id run₁.db =
        subst (Shut x.id) (sym after) (deleted-Shut account x db₁ c' deleted there own) in
      let shut₂ = traffic-Shut x.id events run₁.db run₁.history never shut₁ in
      Shut-IsRefused other later again db₂ h₂ x.id shut₂ kept
