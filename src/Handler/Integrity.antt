-- ===== src/Handler/Integrity.antt =====
-- Whatever the request, the remote services and the connection do, the handlers change the tables
-- by statements alone, and so keep the constraints.
use mkrepo.Base.{ℕ, String, Option, Option-cases, inl, inr}
use mkrepo.Base.Dict.{lookup}
use mkrepo.Database.{Account, OAuth2State, Session, create_oauth2_state}
use mkrepo.Database.{
  get_and_delete_oauth2_state, get_account_session, upsert_account, update_account,
}
use mkrepo.Database.{UpdateAccountParams, delete_account, create_session, UpdateSessionParams}
use mkrepo.Database.{update_session, delete_session}
use mkrepo.Database.{GetAccountSessionRow}
use mkrepo.Provider.{Token, User}
use mkrepo.Provider.Registry.{Provider}
use mkrepo.Database.Db.{Db}
use mkrepo.Database.Constraints.{IsConsistent}
use mkrepo.Database.Steps.{here, Reach, Reach-IsConsistent, creates_state, takes_state, upserts}
use mkrepo.Database.Steps.{updates, deletes, creates_session, updates_session, deletes_session}
use mkrepo.Database.Steps.{reads_session}
use mkrepo.Handler
use mkrepo.Handler.{Env, Request, session_cookie_name}
use mkrepo.Handler.Reaches.{Reaches, IsStep, run-Reach, reaches_rules}
use mkrepo.Handler.Session.{Inputs, renew, authenticate_session}
use mkrepo.Handler.Login.{LoginInputs, begin_login, login, logout, delete_account_handler}
use mkrepo.Handler.Callback.{
  encrypted, CallbackInputs, open_session, identify, after_state, oauth2_callback,
}

pub create_oauth2_state-IsStep : (r : OAuth2State) → IsStep (create_oauth2_state r)
create_oauth2_state-IsStep r = record { step = λ t t' h. creates_state r h }

pub get_and_delete_oauth2_state-IsStep : (s : String) → IsStep (get_and_delete_oauth2_state s)
get_and_delete_oauth2_state-IsStep s = record { step = λ t t' h. takes_state s h }

pub get_account_session-IsStep : (id : String) → IsStep (get_account_session id)
get_account_session-IsStep id = record { step = λ t t' h. reads_session id h }

pub upsert_account-IsStep : (a : Account) → IsStep (upsert_account a)
upsert_account-IsStep a = record { step = λ t t' h. upserts a h }

pub update_account-IsStep : (arg : UpdateAccountParams) → IsStep (update_account arg)
update_account-IsStep arg = record { step = λ t t' h. updates arg h }

pub delete_account-IsStep : (id : String) → IsStep (delete_account id)
delete_account-IsStep id = record { step = λ t t' h. deletes id h }

pub create_session-IsStep : (s : Session) → IsStep (create_session s)
create_session-IsStep s = record { step = λ t t' h. creates_session s h }

pub update_session-IsStep : (arg : UpdateSessionParams) → IsStep (update_session arg)
update_session-IsStep arg = record { step = λ t t' h. updates_session arg h }

pub delete_session-IsStep : (id : String) → IsStep (delete_session id)
delete_session-IsStep id = record { step = λ t t' h. deletes_session id h }

pub ruleset step_rules = (
  create_oauth2_state-IsStep, get_and_delete_oauth2_state-IsStep, get_account_session-IsStep,
  upsert_account-IsStep, update_account-IsStep, delete_account-IsStep, create_session-IsStep,
  update_session-IsStep, delete_session-IsStep,
)

ruleset statement_rules = (reaches_rules, step_rules)

module _ {Block : Type 0} (env : Env Block) where
  begin_login-Reaches : (inputs : LoginInputs) (pr : Provider) → Reaches (begin_login env inputs pr)
  unfolding begin_login
  begin_login-Reaches inputs pr = search statement_rules depth 9

  login-Reaches : (inputs : LoginInputs) (r : Request) → Reaches (login env inputs r)
  unfolding login
  login-Reaches inputs r = search (statement_rules, begin_login-Reaches) depth 7

  renew-Reaches :
      (inputs : Inputs) (row : GetAccountSessionRow) (pr : Provider) (token : Token)
      → Reaches (renew env inputs row pr token)
  unfolding renew
  renew-Reaches inputs row pr token = search statement_rules depth 12

  authenticate_session-Reaches :
      (inputs : Inputs) (id : String) → Reaches (authenticate_session env inputs id)
  unfolding authenticate_session
  authenticate_session-Reaches inputs id = search (statement_rules, renew-Reaches) depth 16

  encrypted-Reaches :
      (inputs : CallbackInputs) (random : ℕ → Option String) (text : String)
      → Reaches (encrypted env inputs random text)
  unfolding encrypted
  encrypted-Reaches inputs random text = search statement_rules

  open_session-Reaches :
      (inputs : CallbackInputs) (key : String) (token : Token) (user : User)
      → Reaches (open_session env inputs key token user)
  unfolding open_session
  open_session-Reaches inputs key token user = search (statement_rules, encrypted-Reaches) depth 12

  identify-Reaches :
      (inputs : CallbackInputs) (r : Request) (pr : Provider) (verifier : Option String)
      → Reaches (identify env inputs r pr verifier)
  unfolding identify
  identify-Reaches inputs r pr verifier = search statement_rules depth 9

  after_state-Reaches :
      (inputs : CallbackInputs) (r : Request) (pr : Provider) (row : OAuth2State)
      → Reaches (after_state env inputs r pr row)
  unfolding after_state
  after_state-Reaches inputs r pr row =
      search (statement_rules, identify-Reaches, open_session-Reaches) depth 12

  oauth2_callback-Reaches :
      (inputs : CallbackInputs) (r : Request) → Reaches (oauth2_callback env inputs r)
  unfolding oauth2_callback
  oauth2_callback-Reaches inputs r = search (statement_rules, after_state-Reaches) depth 12

  logout-Reach : (r : Request) (db : Db) → Reach db.tables (logout r db).1.tables
  unfolding logout
  logout-Reach r db = elim (Option-cases (lookup session_cookie_name r.cookies)) [
    | inl missing ↦ rw (missing, logout) here
    | inr (id, there) ↦
        rw (there, logout) (run-Reach (delete_session id) (delete_session-IsStep id) db)
  ]

  delete_account_handler-Reaches : (a : Handler.Account) → Reaches (delete_account_handler a)
  unfolding delete_account_handler
  delete_account_handler-Reaches a = search statement_rules

  -- From consistent tables, and whatever the request, the identity provider, the random source and
  -- the faults of the connection, the tables are consistent after the authentication of a session
  -- and after each handler of internal/handler/auth.go.
  pub handlers-IsConsistent :
      (db : Db)
      → IsConsistent db.tables
      → ((inputs : Inputs) (id : String)
          → IsConsistent (authenticate_session env inputs id db).1.tables)
        × ((inputs : LoginInputs) (r : Request) → IsConsistent (login env inputs r db).1.tables)
        × ((inputs : CallbackInputs) (r : Request)
            → IsConsistent (oauth2_callback env inputs r db).1.tables)
        × ((r : Request) → IsConsistent (logout r db).1.tables)
        × ((a : Handler.Account) → IsConsistent (delete_account_handler a db).1.tables)
  handlers-IsConsistent db c = (
    λ inputs id. Reach-IsConsistent ((authenticate_session-Reaches inputs id).at db) c,
    λ inputs r. Reach-IsConsistent ((login-Reaches inputs r).at db) c,
    λ inputs r. Reach-IsConsistent ((oauth2_callback-Reaches inputs r).at db) c,
    λ r. Reach-IsConsistent (logout-Reach r db) c,
    λ a. Reach-IsConsistent ((delete_account_handler-Reaches a).at db) c,
  )
