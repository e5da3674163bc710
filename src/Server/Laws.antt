-- ===== src/Server/Laws.antt =====
-- What can come of a request.
use mkrepo.Base.{String, ◌≡◌, refl, ◌⊎◌, none, some}
use mkrepo.Base.{ok, err}
use mkrepo.Base.Dict.{lookup}
use mkrepo.Database.Db.{Db}
use mkrepo.Service.Work.{History, panic}
use mkrepo.Handler.{Account, Request, session_cookie_name}
use mkrepo.Handler.Session.{AuthError, authenticate_session}
use mkrepo.Handler.Login.{clear}
use mkrepo.Handler.Middleware.{authenticate_middleware}
use mkrepo.Server.{Run, writer, Site, RequestInputs, chosen, serve_mux, new_server}
use mkrepo.Server.Serves.{Works, IsFatal}

module _ {Block Schema : Type 0} (site : Site Block Schema) (inputs : RequestInputs) where
  -- The cookie of the request leads to a session that authenticates.
  abbrev pub Authenticates : Request → Db → Account → Type 0
  Authenticates r db account =
      (id : String) × (lookup session_cookie_name r.cookies ≡ some id)
      × ((authenticate_session site.env inputs.auth id db).0 ≡ ok account)

  Outcome : Request → Db → History → Run → Type 0
  Outcome r db h run =
      ((run.history ≡ h)
        ⊎ (((a : Account) × Authenticates r db a) × Works site inputs (chosen site inputs r)))
      × (run.answer ≡ err panic
          → (a : Account) × Authenticates r db a
            × IsFatal site inputs (chosen site inputs r) r a h run.history)

  module _ (r : Request) (db : Db) where
    pub without_cookie :
        lookup session_cookie_name r.cookies ≡ none
        → new_server site inputs r db ≡ serve_mux site inputs none r db
    unfolding new_server authenticate_middleware
    without_cookie missing = rw (missing, new_server, authenticate_middleware) refl

    pub with_session :
        (id : String) (account : Account)
        → lookup session_cookie_name r.cookies ≡ some id
        → (authenticate_session site.env inputs.auth id db).0 ≡ ok account
        → new_server site inputs r db
          ≡ serve_mux site inputs
              (some account)
              r
              (authenticate_session site.env inputs.auth id db).1
    unfolding new_server authenticate_middleware
    with_session id account sent good = rw (sent, good, new_server, authenticate_middleware) refl

    pub with_bad_session :
        (id : String) (e : AuthError)
        → lookup session_cookie_name r.cookies ≡ some id
        → (authenticate_session site.env inputs.auth id db).0 ≡ err e
        → new_server site inputs r db
          ≡ writer.set_cookie clear
              (serve_mux site inputs none r (authenticate_session site.env inputs.auth id db).1)
    unfolding new_server authenticate_middleware
    with_bad_session id e sent bad = rw (sent, bad, new_server, authenticate_middleware) refl

  -- The request is for a route whose handler works with the service.
  abbrev pub Posts : Request → Type 0
  Posts r = (r.method ≡ "POST") × ((r.path ≡ "/new") ⊎ (r.path ≡ "/templates"))
