-- ===== src/Server.antt =====
-- internal/server/server.go: the routes of `NewServer`, behind `AuthenticateMiddleware`. The file
-- server is a parameter.
pub mod Mux
pub mod Serves
pub mod Laws
pub mod Blind
pub mod Routes
pub mod Traffic
pub mod Samples
mod Tests
use mkrepo.Base.{String, Option, none, some, List, [], ◌∷◌, Result, ok, err, map, map_ok}
use mkrepo.Base.Dict.{Dict, lookup}
use mkrepo.Database.Db.{Db}
use mkrepo.Service.Work.{World, Work, History, Failure}
use mkrepo.Service.Create.{MkrepoService}
use mkrepo.Service.Template.{MkrepoFile}
use mkrepo.Handler.{Account, Cookie, Request, Response, Env}
use mkrepo.Handler.Session.{Inputs}
use mkrepo.Handler.Login.{LoginInputs, login, logout, delete_account_handler, serve}
use mkrepo.Handler.Callback.{CallbackInputs, oauth2_callback}
use mkrepo.Handler.Middleware.{
  Handler, Writer, with_cookie, authenticate_middleware, must_authenticate,
}
use mkrepo.Handler.Pages.{index, schemas, templates, mkrepo_form}
use mkrepo.Server.Mux.{choose, refusal}
use mkrepo.Handler.Make.{mkrepo_create, register_template_handler}

-- The run of one request: its answer, or the panic that ends it, the database after it, and the calls
-- of the service that were made.
pub record Run : Type 0 where
  pub answer : Result Failure Response
  pub db : Db
  pub history : History

-- A run, from what was called before it.
abbrev pub Serving : Type 0
Serving = History → Run

abbrev pub writer : Writer Serving
writer = record {
  answer = λ r db h. record { answer = ok r; db = db; history = h };
  set_cookie = λ c run h. record (run h) { answer = map_ok (with_cookie c) (run h).answer };
}

-- What `NewServer` is given, and what its handlers use.
pub record Site (Block Schema : Type 0) : Type 0 where
  pub env : Env Block
  pub world : World
  pub service : MkrepoService
  pub decode : String → Result String (MkrepoFile Schema)
  pub disk : History → String → Option String
  pub licenses_json : Option String
  pub file_server : Request → Response

-- What the handlers of one request read of the clock and the random source.
pub record RequestInputs : Type 0 where
  pub auth : Inputs
  pub login : LoginInputs
  pub callback : CallbackInputs

-- Handlers that only answer, that work on the database, and that work with the service.
abbrev pub page : (Request → Response) → Handler Serving
page f account r db = writer.answer (f r) db

abbrev pub stored : (Request → Db → Response × Db) → Handler Serving
stored f account r db = let (answer, db') = f r db in writer.answer answer db'

abbrev pub worked : (Account → Request → Work Response) → Account → Request → Db → Serving
worked f account r db h =
    let (answer, h') = f account r h in record { answer = answer; db = db; history = h' }

module _ {Block Schema : Type 0} (site : Site Block Schema) (inputs : RequestInputs) where
  abbrev pub guarded : (Account → Request → Db → Serving) → Handler Serving
  guarded = must_authenticate writer

  unfoldable pub routes : Dict (Handler Serving)
  routes =
      ("GET /", page index)
      ∷ ("GET /static/", page site.file_server)
      ∷ ("GET /auth/login", stored (λ r. serve (login site.env inputs.login r)))
      ∷ ("GET /auth/logout", stored logout)
      ∷ (
        "GET /auth/oauth2/callback/{provider}",
        stored (λ r. serve (oauth2_callback site.env inputs.callback r)),
      )
      ∷ (
        "GET /auth/delete-account",
        guarded (λ account. stored (λ r. serve (delete_account_handler account)) (some account)),
      )
      ∷ ("GET /new", guarded (worked (λ account r h. (mkrepo_form site.env account r, h))))
      ∷ ("POST /new", guarded (worked (mkrepo_create site.env site.world site.service)))
      ∷ ("GET /schemas", page (schemas site.licenses_json))
      ∷ ("GET /templates", page templates)
      ∷ (
        "POST /templates",
        guarded (worked (register_template_handler site.world site.decode site.disk)),
      )
      ∷ []

  unfoldable pub patterns : List String
  unfolding routes
  patterns = map (λ route. route.0) routes

  -- `http.ServeMux` on the patterns.
  abbrev pub chosen : Request → Option String
  chosen r = choose patterns r.method r.path

  handled : Option (Handler Serving) → Handler Serving
  handled none = page (refusal patterns)
  handled (some handler) = handler

  dispatched : Option String → Handler Serving
  unfolding handled
  dispatched none = page (refusal patterns)
  dispatched (some pattern) = handled (lookup pattern routes)

  unfoldable pub serve_mux : Handler Serving
  unfolding dispatched
  serve_mux account r = dispatched (chosen r) account r

  unfoldable pub new_server : Request → Db → Serving
  unfolding serve_mux
  new_server = authenticate_middleware site.env inputs.auth writer serve_mux
