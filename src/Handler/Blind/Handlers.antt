-- ===== src/Handler/Blind/Handlers.antt =====
-- The handlers of internal/handler/auth.go on databases that hold the same rows.
use mkrepo.Base.{ℕ, String, ◌≡◌, refl, Option, Option-cases, inl, inr}
use mkrepo.Base.Dict.{lookup}
use mkrepo.Database.{OAuth2State, delete_session}
use mkrepo.Database.{GetAccountSessionRow}
use mkrepo.Provider.{Token, User}
use mkrepo.Provider.Registry.{Provider}
use mkrepo.Database.Db.{Db}
use mkrepo.Database.Rows.Laws.{
  create_oauth2_state-IsBlind, get_and_delete_oauth2_state-IsBlind, get_account_session-IsBlind,
  upsert_account-IsBlind, update_account-IsBlind, delete_account-IsBlind, create_session-IsBlind,
  update_session-IsBlind, delete_session-IsBlind,
}
use mkrepo.Handler
use mkrepo.Handler.{Env, Request, session_cookie_name}
use mkrepo.Handler.Integrity.{step_rules, delete_session-IsStep}
use mkrepo.Handler.Blind.{AreAlike, Agrees, run-AreAlike, agrees_rules}
use mkrepo.Handler.Session.{Inputs, renew, authenticate_session}
use mkrepo.Handler.Login.{LoginInputs, begin_login, login, logout, delete_account_handler}
use mkrepo.Handler.Callback.{
  encrypted, CallbackInputs, open_session, identify, after_state, oauth2_callback,
}

ruleset blind_rules = (
  agrees_rules, step_rules, create_oauth2_state-IsBlind, get_and_delete_oauth2_state-IsBlind,
  get_account_session-IsBlind, upsert_account-IsBlind, update_account-IsBlind,
  delete_account-IsBlind, create_session-IsBlind, update_session-IsBlind, delete_session-IsBlind,
)

module _ {Block : Type 0} (env : Env Block) where
  begin_login-Agrees : (inputs : LoginInputs) (pr : Provider) → Agrees (begin_login env inputs pr)
  unfolding begin_login
  begin_login-Agrees inputs pr = search blind_rules depth 9

  pub login-Agrees : (inputs : LoginInputs) (r : Request) → Agrees (login env inputs r)
  unfolding login
  login-Agrees inputs r = search (blind_rules, begin_login-Agrees) depth 7

  renew-Agrees :
      (inputs : Inputs) (row : GetAccountSessionRow) (pr : Provider) (token : Token)
      → Agrees (renew env inputs row pr token)
  unfolding renew
  renew-Agrees inputs row pr token = search blind_rules depth 12

  pub authenticate_session-Agrees :
      (inputs : Inputs) (id : String) → Agrees (authenticate_session env inputs id)
  unfolding authenticate_session
  authenticate_session-Agrees inputs id = search (blind_rules, renew-Agrees) depth 16

  encrypted-Agrees :
      (inputs : CallbackInputs) (random : ℕ → Option String) (text : String)
      → Agrees (encrypted env inputs random text)
  unfolding encrypted
  encrypted-Agrees inputs random text = search blind_rules

  open_session-Agrees :
      (inputs : CallbackInputs) (key : String) (token : Token) (user : User)
      → Agrees (open_session env inputs key token user)
  unfolding open_session
  open_session-Agrees inputs key token user = search (blind_rules, encrypted-Agrees) depth 12

  identify-Agrees :
      (inputs : CallbackInputs) (r : Request) (pr : Provider) (verifier : Option String)
      → Agrees (identify env inputs r pr verifier)
  unfolding identify
  identify-Agrees inputs r pr verifier = search blind_rules depth 9

  after_state-Agrees :
      (inputs : CallbackInputs) (r : Request) (pr : Provider) (row : OAuth2State)
      → Agrees (after_state env inputs r pr row)
  unfolding after_state
  after_state-Agrees inputs r pr row =
      search (blind_rules, identify-Agrees, open_session-Agrees) depth 12

  pub oauth2_callback-Agrees :
      (inputs : CallbackInputs) (r : Request) → Agrees (oauth2_callback env inputs r)
  unfolding oauth2_callback
  oauth2_callback-Agrees inputs r = search (blind_rules, after_state-Agrees) depth 12

  pub delete_account_handler-Agrees : (a : Handler.Account) → Agrees (delete_account_handler a)
  unfolding delete_account_handler
  delete_account_handler-Agrees a = search blind_rules

pub logout-AreAlike :
    (r : Request) (db db' : Db)
    → AreAlike db db'
    → ((logout r db).0 ≡ (logout r db').0) × AreAlike (logout r db).1 (logout r db').1
unfolding logout
logout-AreAlike r db db' h = elim (Option-cases (lookup session_cookie_name r.cookies)) [
  | inl missing ↦ rw (missing, logout) (refl, h)
  | inr (id, there) ↦
      rw (there, logout)
        (
          refl,
          (run-AreAlike (delete_session id) db db' (delete_session-IsStep id)
              (delete_session-IsBlind id) h).1,
        )
]
