-- ===== src/Handler/Shut.antt =====
-- A session that is not in the tables stays away through every handler but the callback that draws its
-- ID, and does not authenticate.
pub mod Handlers
use mathlib.Core.Path.{subst}
use mkrepo.Base.{ℕ, String, ◌≡◌, ◌≢◌, sym, none, err, Option, Option-cases, inl, inr}
use mkrepo.Base.Dict.{lookup}
use mkrepo.Database
use mkrepo.Database.{OAuth2State, Session, Tables, Statement, create_oauth2_state}
use mkrepo.Database.{
  get_and_delete_oauth2_state, get_account_session, upsert_account, update_account, delete_account,
}
use mkrepo.Database.{UpdateAccountParams, create_session, UpdateSessionParams, update_session}
use mkrepo.Database.{delete_session, delete_expired_oauth2_states, delete_expired_sessions}
use mkrepo.Database.{GetAccountSessionRow}
use mkrepo.Database.Db.{Db, run, cleanup}
use mkrepo.Database.Db.Laws.{run-cases, cleanup-keeps_invariant}
use mkrepo.Database.Constraints.{IsConsistent}
use mkrepo.Database.Steps.{
  Leaves, Step, Step-IsConsistent, creates_state, takes_state, drops_states,
}
use mkrepo.Database.Steps.{upserts, updates, deletes, creates_session, updates_session}
use mkrepo.Database.Steps.{deletes_session, reads_session, drops_sessions}
use mkrepo.Database.Sessions.{store}
use mkrepo.Database.Interleaving.{Opens}
use mkrepo.Database.Interleaving.Revoked.{Step-closed, get_account_session_of_closed}
use mkrepo.Provider.{Token, User}
use mkrepo.Provider.Registry.{Provider}
use mkrepo.Handler.{Account, Env, Request, session_cookie_name}
use mkrepo.Handler.Action.{◌>>=◌}
use mkrepo.Handler.Preserves.{Preserves, StatementPreserves, preserves_rules}
use mkrepo.Handler.Session.{Inputs, AuthError, no_session, renew, authenticate_session}
use mkrepo.Handler.Login.{LoginInputs, begin_login, login, logout, delete_account_handler}
use mkrepo.Handler.Callback.{
  encrypted, CallbackInputs, open_session, identify, after_state, oauth2_callback,
}

-- The tables are consistent, and none of the sessions has the ID.
pub record Shut (id : String) (db : Db) : Type 0 where
  pub consistent : IsConsistent db.tables
  pub gone : store db.tables id ≡ none

module _ (id : String) where
  Step-Shut :
      (db db' : Db) (st : Step db.tables db'.tables) → (Opens id st → ⊥) → Shut id db → Shut id db'
  Step-Shut db db' st other shut = record {
    consistent = Step-IsConsistent st shut.consistent;
    gone = Step-closed id st shut.consistent other shut.gone;
  }

  Shut-same_tables : (db db' : Db) → db'.tables ≡ db.tables → Shut id db → Shut id db'
  Shut-same_tables db db' same shut = record {
    consistent = subst IsConsistent (sym same) shut.consistent;
    gone = subst (λ t. store t id ≡ none) (sym same) shut.gone;
  }

  statement-Shut :
      {A : Type 0} (st : Statement A)
      → ((t t' : Tables) → Leaves (st t) t' → (s : Step t t') × (Opens id s → ⊥))
      → StatementPreserves (Shut id) st
  statement-Shut st step = record {
    after = λ db shut. elim (run-cases st db) [
      | inl leaves ↦
          let (s, other) = step db.tables _ leaves in Step-Shut db (run st db).1 s other shut
      | inr same ↦ Shut-same_tables db (run st db).1 same shut
    ];
  }

  create_oauth2_state-Shut :
      (r : OAuth2State) → StatementPreserves (Shut id) (create_oauth2_state r)
  create_oauth2_state-Shut r = statement-Shut _ (λ t t' h. (creates_state r h, λ e. e))

  get_and_delete_oauth2_state-Shut :
      (state : String) → StatementPreserves (Shut id) (get_and_delete_oauth2_state state)
  get_and_delete_oauth2_state-Shut state =
      statement-Shut _ (λ t t' h. (takes_state state h, λ e. e))

  get_account_session-Shut :
      (read : String) → StatementPreserves (Shut id) (get_account_session read)
  get_account_session-Shut read = statement-Shut _ (λ t t' h. (reads_session read h, λ e. e))

  upsert_account-Shut : (a : Database.Account) → StatementPreserves (Shut id) (upsert_account a)
  upsert_account-Shut a = statement-Shut _ (λ t t' h. (upserts a h, λ e. e))

  update_account-Shut :
      (arg : UpdateAccountParams) → StatementPreserves (Shut id) (update_account arg)
  update_account-Shut arg = statement-Shut _ (λ t t' h. (updates arg h, λ e. e))

  delete_account-Shut : (account : String) → StatementPreserves (Shut id) (delete_account account)
  delete_account-Shut account = statement-Shut _ (λ t t' h. (deletes account h, λ e. e))

  create_session-Shut : (s : Session) → s.id ≢ id → StatementPreserves (Shut id) (create_session s)
  create_session-Shut s other = statement-Shut _ (λ t t' h. (creates_session s h, other))

  update_session-Shut :
      (arg : UpdateSessionParams) → StatementPreserves (Shut id) (update_session arg)
  update_session-Shut arg = statement-Shut _ (λ t t' h. (updates_session arg h, λ e. e))

  delete_session-Shut : (closed : String) → StatementPreserves (Shut id) (delete_session closed)
  delete_session-Shut closed = statement-Shut _ (λ t t' h. (deletes_session closed h, λ e. e))

  delete_expired_oauth2_states-Shut :
      (now : ℕ) → StatementPreserves (Shut id) (delete_expired_oauth2_states now)
  delete_expired_oauth2_states-Shut now = statement-Shut _ (λ t t' h. (drops_states now h, λ e. e))

  delete_expired_sessions-Shut :
      (now : ℕ) → StatementPreserves (Shut id) (delete_expired_sessions now)
  delete_expired_sessions-Shut now = statement-Shut _ (λ t t' h. (drops_sessions now h, λ e. e))

  pub cleanup-Shut : (now later : ℕ) (db : Db) → Shut id db → Shut id (cleanup now later db).1
  cleanup-Shut now later db =
      cleanup-keeps_invariant (Shut id) now later db (delete_expired_oauth2_states-Shut now).after
        (delete_expired_sessions-Shut later).after

ruleset shut_rules = (
  preserves_rules, create_oauth2_state-Shut, get_and_delete_oauth2_state-Shut,
  get_account_session-Shut, upsert_account-Shut, update_account-Shut, delete_account-Shut,
  create_session-Shut, update_session-Shut, delete_session-Shut,
)
