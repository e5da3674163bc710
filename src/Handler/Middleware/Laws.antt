-- ===== src/Handler/Middleware/Laws.antt =====
-- What stands behind both middlewares answers for an authenticated account only.
use mkrepo.Base.{String, ◌<>◌, ◌≡◌, refl, none, some, [], ◌==◌, if◌then◌else◌, ok, err}
use mkrepo.Base.{Result-cases, Option-cases, inl, inr, ◌⊎◌}
use mkrepo.Base.Dict.{lookup}
use mkrepo.Base.Escape.{query_escape}
use mkrepo.Database.Db.{Db}
use mkrepo.Handler.{Account, Request, Env, session_cookie_name, redirect}
use mkrepo.Handler.Session.{AuthError, Inputs, authenticate_session}
use mkrepo.Handler.Login.{clear}
use mkrepo.Handler.Middleware.{Writer, authenticate_middleware, must_authenticate}

-- The answer that sends the browser to the login page, and back after it.
abbrev pub login_page : Request → String
login_page r =
    "/auth/login" <> (if r.method == "GET" then "?redirect=" <> query_escape r.uri else "")

module _ {Block : Type 0} (env : Env Block) (inputs : Inputs) {R : Type 0} (writer : Writer R)
    (next : Account → Request → Db → R) where
  -- Behind both middlewares a handler is called in one case alone, for the account that the session
  -- of the cookie authenticates as, and then it answers. Without a cookie, and when the session does
  -- not authenticate, the browser is sent to the login page; in the second case its cookie is
  -- cleared. Nothing but the authentication has then touched the database.
  pub must_authenticate-authenticate_middleware :
      (r : Request) (db : Db)
      → let answer : R =
          authenticate_middleware env inputs writer (must_authenticate writer next) r db in
        ((id : String) × (account : Account) × (lookup session_cookie_name r.cookies ≡ some id)
          × ((authenticate_session env inputs id db).0 ≡ ok account)
          × (answer ≡ next account r (authenticate_session env inputs id db).1))
        ⊎ ((id : String) × (e : AuthError) × (lookup session_cookie_name r.cookies ≡ some id)
            × ((authenticate_session env inputs id db).0 ≡ err e)
            × (answer
                ≡ writer.set_cookie clear (
                    writer.answer
                      (redirect (login_page r) [])
                      (authenticate_session env inputs id db).1)))
        ⊎ ((lookup session_cookie_name r.cookies ≡ none)
            × (answer ≡ writer.answer (redirect (login_page r) []) db))
  unfolding authenticate_middleware must_authenticate
  must_authenticate-authenticate_middleware r db =
      elim (Option-cases (lookup session_cookie_name r.cookies)) [
        | inl missing ↦ inr (inr (missing, rw (missing, authenticate_middleware) refl))
        | inr (id, sent) ↦ elim (Result-cases (authenticate_session env inputs id db).0) [
          | inl (account, good) ↦
              inl (id, account, sent, good, rw (sent, good, authenticate_middleware) refl)
          | inr (e, bad) ↦
              inr (inl (id, e, sent, bad, rw (sent, bad, authenticate_middleware) refl))
        ]
      ]
