-- ===== src/Handler/Login.antt =====
-- internal/handler/auth.go: `Login`, `Logout` and `DeleteAccount`. A time is in microseconds.
pub mod Laws
use mkrepo.Base.{
  ℕ, ◌+◌, ◌*◌, String, Bool, Option, none, some, [], ◌∷◌, ◌==◌, if◌then◌else◌, Result, ok, err,
}
use mkrepo.Base.{or_err}
use mkrepo.Base.Dict.{lookup}
use mkrepo.Base.Int.{negsuc}
use mkrepo.Provider.Registry.{Provider, features, oauth2_config}
use mkrepo.Database.{create_oauth2_state, delete_session, delete_account}
use mkrepo.Database.Db.{Db, run}
use mkrepo.Handler.{Account, Cookie, Request, Response, Env, session_cookie, session_cookie_name}
use mkrepo.Handler.{form_value, http_error, redirect}
use mkrepo.Handler.Action.{Action, pure, lift, query, ◌>>=◌, ◌>>◌}

abbrev pub second : ℕ
second = 1_000_000

-- `render` of a page: its template is named, and what it shows is not modelled.
unfoldable pub rendered : String → Response
rendered page = record { status = 200; location = ""; cookies = []; body = page }

-- The answer of a handler, early or at its end.
abbrev pub either : Result Response Response → Response
either (ok r) = r
either (err r) = r

abbrev pub serve : Action Response Response → Db → Response × Db
serve action db = let (r, db') = action db in (either r, db')

-- `oauth2.GenerateVerifier()`, `rand.Text()` and the time of the call.
pub record LoginInputs : Type 0 where
  pub verifier : String
  pub state : String
  pub now : ℕ

module _ {Block : Type 0} (env : Env Block) where
  unfoldable pub begin_login : LoginInputs → Provider → Action Response Response
  begin_login inputs pr = do
    let verifier : Option String =
        if (features pr).oauth2_authorization_code_flow_with_pkce
        then some inputs.verifier
        else none
    query
        (create_oauth2_state (record {
          state = inputs.state;
          verifier = verifier;
          expires_at = inputs.now + 15 * 60 * second;
        }))
        (http_error "Failed to create OAuth2 state" 500)
    pure (redirect (env.auth_code_url (oauth2_config env.endpoints pr) inputs.state verifier) [])

  unfoldable pub login : LoginInputs → Request → Action Response Response
  login inputs r =
      let provider_key = form_value r "provider" in
      if provider_key == "" then pure (rendered "login.html") else do
        pr ← lift (or_err (lookup provider_key env.providers) (http_error "Unknown provider" 400))
        begin_login inputs pr

-- The cookie that ends the session in the browser.
abbrev pub clear : Cookie
clear = session_cookie "" (negsuc 0)

-- An error of the database is only logged.
unfoldable pub logout : Request → Db → Response × Db
logout r db = elim (lookup session_cookie_name r.cookies) [
  | none ↦ (redirect "/" [], db)
  | some session_id ↦
      let (_, db') = run (delete_session session_id) db in (redirect "/" (clear ∷ []), db')
]

unfoldable pub delete_account_handler : Account → Action Response Response
delete_account_handler account = do
  query (delete_account account.id) (http_error "Internal Server Error" 500)
  pure (redirect "/" (clear ∷ []))
