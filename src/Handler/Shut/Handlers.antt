-- ===== src/Handler/Shut/Handlers.antt =====
-- The handlers of internal/handler/auth.go, on tables without a session: they bring it back only if the
-- callback draws its ID.
use mkrepo.Base.{ℕ, String, ◌≡◌, ◌≢◌, refl, err, Option, Option-cases, inl, inr}
use mkrepo.Base.Dict.{lookup}
use mkrepo.Database.{OAuth2State, GetAccountSessionRow, get_account_session}
use mkrepo.Database.Db.{Db}
use mkrepo.Database.Db.Laws.{run-err}
use mkrepo.Database.Interleaving.Revoked.{get_account_session_of_closed}
use mkrepo.Provider.{Token, User}
use mkrepo.Provider.Registry.{Provider}
use mkrepo.Handler.{Account, Env, Request, session_cookie_name}
use mkrepo.Handler.Action.{◌>>=◌}
use mkrepo.Handler.Preserves.{Preserves}
use mkrepo.Handler.Session.{Inputs, no_session, renew, authenticate_session}
use mkrepo.Handler.Login.{LoginInputs, begin_login, login, logout, delete_account_handler}
use mkrepo.Handler.Callback.{
  encrypted, CallbackInputs, open_session, identify, after_state, oauth2_callback,
}
use mkrepo.Handler.Shut.{Shut, shut_rules, delete_session-Shut}

module _ {Block : Type 0} (env : Env Block) (id : String) where
  begin_login-Shut :
      (inputs : LoginInputs) (pr : Provider) → Preserves (Shut id) (begin_login env inputs pr)
  unfolding begin_login
  begin_login-Shut inputs pr = search shut_rules depth 9

  pub login-Shut : (inputs : LoginInputs) (r : Request) → Preserves (Shut id) (login env inputs r)
  unfolding login
  login-Shut inputs r = search (shut_rules, begin_login-Shut) depth 9

  renew-Shut :
      (inputs : Inputs) (row : GetAccountSessionRow) (pr : Provider) (token : Token)
      → Preserves (Shut id) (renew env inputs row pr token)
  unfolding renew
  renew-Shut inputs row pr token = search shut_rules depth 12

  pub authenticate_session-Shut :
      (inputs : Inputs) (read : String) → Preserves (Shut id) (authenticate_session env inputs read)
  unfolding authenticate_session
  authenticate_session-Shut inputs read = search (shut_rules, renew-Shut) depth 16

  encrypted-Shut :
      (inputs : CallbackInputs) (random : ℕ → Option String) (text : String)
      → Preserves (Shut id) (encrypted env inputs random text)
  unfolding encrypted
  encrypted-Shut inputs random text = search shut_rules

  open_session-Shut :
      (inputs : CallbackInputs) (key : String) (token : Token) (user : User)
      → inputs.session_id ≢ id
      → Preserves (Shut id) (open_session env inputs key token user)
  unfolding open_session
  open_session-Shut inputs key token user other = search (shut_rules, encrypted-Shut) depth 12

  identify-Shut :
      (inputs : CallbackInputs) (r : Request) (pr : Provider) (verifier : Option String)
      → Preserves (Shut id) (identify env inputs r pr verifier)
  unfolding identify
  identify-Shut inputs r pr verifier = search shut_rules depth 9

  after_state-Shut :
      (inputs : CallbackInputs) (r : Request) (pr : Provider) (row : OAuth2State)
      → inputs.session_id ≢ id
      → Preserves (Shut id) (after_state env inputs r pr row)
  unfolding after_state
  after_state-Shut inputs r pr row other =
      search (shut_rules, identify-Shut, open_session-Shut) depth 12

  pub oauth2_callback-Shut :
      (inputs : CallbackInputs) (r : Request)
      → inputs.session_id ≢ id
      → Preserves (Shut id) (oauth2_callback env inputs r)
  unfolding oauth2_callback
  oauth2_callback-Shut inputs r other = search (shut_rules, after_state-Shut) depth 12

  pub delete_account_handler-Shut : (a : Account) → Preserves (Shut id) (delete_account_handler a)
  unfolding delete_account_handler
  delete_account_handler-Shut a = search shut_rules

pub logout-Shut : (id : String) (r : Request) (db : Db) → Shut id db → Shut id (logout r db).1
unfolding logout
logout-Shut id r db shut = elim (Option-cases (lookup session_cookie_name r.cookies)) [
  | inl missing ↦ rw (missing, logout) shut
  | inr (closed, there) ↦ rw (there, logout) ((delete_session-Shut id closed).after db shut)
]

-- Whatever the faults, it does not authenticate.
pub authenticate_session_closed :
    {Block : Type 0} (env : Env Block) (inputs : Inputs) (id : String) (db : Db)
    → Shut id db
    → (authenticate_session env inputs id db).0 ≡ err no_session
unfolding authenticate_session ◌>>=◌
authenticate_session_closed env inputs id db shut =
    let (e, failed) =
      run-err (get_account_session id) db (get_account_session_of_closed id db.tables shut.gone) in
    rw failed refl
