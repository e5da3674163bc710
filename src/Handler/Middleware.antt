-- ===== src/Handler/Middleware.antt =====
-- internal/handler/auth.go: `AuthenticateMiddleware` and `MustAuthenticate`.
pub mod Laws
use mkrepo.Base.{String, ◌<>◌, Option, none, some, [], ◌∷◌, ◌==◌, if◌then◌else◌, Result, ok, err}
use mkrepo.Base.Dict.{lookup}
use mkrepo.Base.Escape.{query_escape}
use mkrepo.Database.Db.{Db}
use mkrepo.Handler.{Account, Cookie, Request, Response, Env, session_cookie_name, redirect}
use mkrepo.Handler.Session.{AuthError, Inputs, authenticate_session}
use mkrepo.Handler.Login.{clear}

-- What a handler gives is built by `http.ResponseWriter`: an answer, and a cookie that is set before
-- the next handler answers. `R` is what is seen of the run.
pub record Writer (R : Type 0) : Type 0 where
  pub answer : Response → Db → R
  pub set_cookie : Cookie → R → R

-- The context of a request, of which only the value under `accountContextKey` is read: what
-- `getAccountFromContext` finds, and the context with an account.
abbrev pub Context : Type 0
Context = Option Account

abbrev pub context_with_account : Context → Account → Context
context_with_account context account = some account

abbrev pub get_account_from_context : Context → Option Account
get_account_from_context context = context

-- A handler that finds the account in the request's context, or nil.
abbrev pub Handler : Type 0 → Type 0
Handler R = Context → Request → Db → R

abbrev pub with_cookie : Cookie → Response → Response
with_cookie c r = record r { cookies = c ∷ r.cookies }

-- The answer and the database are seen.
abbrev pub response_writer : Writer (Response × Db)
response_writer = record {
  answer = λ r db. (r, db);
  set_cookie = λ c (r, db). (with_cookie c r, db);
}

module _ {Block : Type 0} (env : Env Block) (inputs : Inputs) {R : Type 0} (writer : Writer R)
    (next : Handler R) where
  pass : Request → Result AuthError Account → Db → R
  pass r (ok account) db = next (context_with_account none account) r db
  pass r (err e) db = writer.set_cookie clear (next none r db)

  unfoldable pub authenticate_middleware : Request → Db → R
  unfolding pass
  authenticate_middleware r db = elim (lookup session_cookie_name r.cookies) [
    | none ↦ next none r db
    | some session_id ↦
        let (result, db') = authenticate_session env inputs session_id db in pass r result db'
  ]

unfoldable pub must_authenticate :
    {R : Type 0} → Writer R → (Account → Request → Db → R) → Handler R
must_authenticate writer next none r db =
    let back = if r.method == "GET" then "?redirect=" <> query_escape r.uri else "" in
    writer.answer (redirect ("/auth/login" <> back) []) db
must_authenticate writer next (some account) r db = next account r db
