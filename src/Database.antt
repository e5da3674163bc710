-- ===== src/Database.antt =====
-- internal/gen/database/models.go, sql/schema.sql and internal/gen/database/query.sql.go: the tables
-- and the SQL statements of the accounts, the sessions and the OAuth2 states. A statement is a
-- function on the tables of PostgreSQL that fails where a constraint of sql/schema.sql is broken; a
-- failed statement changes nothing. A `[]byte` that may be nil is an `Option`. The order of the rows
-- of a table means nothing.
mod Unique
pub mod Db
pub mod Constraints
pub mod Steps
pub mod Rows
pub mod Effects
pub mod Join
pub mod Accounts
pub mod Sessions
pub mod Interleaving
pub mod Crypto
pub mod Templates
pub mod Open
mod Tests
use mkrepo.Base.{ℕ, String, Bool, true, false, ◌&&◌, Option, none, some, List, [], ◌∷◌, ◌==◌}
use mkrepo.Base.{if◌then◌else◌, any, find, without, update, ltb, Result, ok, err}

pub record Account : Type 0 where
  pub id : String
  pub provider : String
  pub provider_account_id : String
  pub email : String
  pub username : String
  pub display_name : String
  pub avatar_url : String

pub record OAuth2State : Type 0 where
  pub state : String
  pub verifier : Option String
  pub expires_at : ℕ

pub record Session : Type 0 where
  pub id : String
  pub access_token : String
  pub refresh_token : Option String
  pub access_token_expires_at : Option ℕ
  pub expires_at : ℕ
  pub account_id : String

pub record Tables : Type 0 where
  pub oauth2_states : List OAuth2State
  pub accounts : List Account
  pub sessions : List Session

abbrev pub empty_tables : Tables
empty_tables = record { oauth2_states = []; accounts = []; sessions = [] }

-- `connection` is a failure of the driver or the server; the others are answers of PostgreSQL.
pub data DbError : Type 0 where
  unique_violation foreign_key_violation no_rows connection : DbError

-- A statement gives its answer and the tables after it.
abbrev pub Statement : Type 0 → Type 0
Statement A = Tables → Result DbError (A × Tables)

-- The row has this state, this ID or this provider's account.
abbrev pub has_state : String → OAuth2State → Bool
has_state state r = r.state == state

abbrev pub has_id : String → Account → Bool
has_id id a = a.id == id

abbrev pub has_session_id : String → Session → Bool
has_session_id id s = s.id == id

abbrev pub belongs_to : String → Session → Bool
belongs_to id s = s.account_id == id

abbrev pub is_account : String → String → Account → Bool
is_account provider account_id a = a.provider == provider && a.provider_account_id == account_id

unfoldable pub create_oauth2_state : OAuth2State → Statement Unit
create_oauth2_state r t =
    if any (has_state r.state) t.oauth2_states
    then err unique_violation
    else ok (tt, record t { oauth2_states = r ∷ t.oauth2_states })

unfoldable pub get_and_delete_oauth2_state : String → Statement OAuth2State
get_and_delete_oauth2_state state t = elim (find (has_state state) t.oauth2_states) [
  | none ↦ err no_rows
  | some r ↦ ok (r, record t { oauth2_states = without (has_state state) t.oauth2_states })
]

-- `now` is the time of the statement, `now()`.
unfoldable pub delete_expired_oauth2_states : ℕ → Statement Unit
delete_expired_oauth2_states now t =
    ok (tt, record t { oauth2_states = without (λ r. ltb r.expires_at now) t.oauth2_states })

pub record GetAccountSessionRow : Type 0 where
  pub id : String
  pub provider : String
  pub provider_account_id : String
  pub email : String
  pub username : String
  pub display_name : String
  pub avatar_url : String
  pub session_id : String
  pub access_token : String
  pub refresh_token : Option String
  pub access_token_expires_at : Option ℕ
  pub expires_at : ℕ

abbrev pub joined : Account → Session → GetAccountSessionRow
joined a s = record {
  id = a.id;
  provider = a.provider;
  provider_account_id = a.provider_account_id;
  email = a.email;
  username = a.username;
  display_name = a.display_name;
  avatar_url = a.avatar_url;
  session_id = s.id;
  access_token = s.access_token;
  refresh_token = s.refresh_token;
  access_token_expires_at = s.access_token_expires_at;
  expires_at = s.expires_at;
}

-- The join: the first session with the ID whose account is there. The IDs are primary keys, so
-- there is one row at most.
unfoldable pub join_account :
    Option Session → Tables → Result DbError (GetAccountSessionRow × Tables)
join_account none t = err no_rows
join_account (some s) t = elim (find (has_id s.account_id) t.accounts) [
  | none ↦ err no_rows
  | some a ↦ ok (joined a s, t)
]

unfoldable pub get_account_session : String → Statement GetAccountSessionRow
unfolding join_account
get_account_session id t = join_account (find (has_session_id id) t.sessions) t

-- The columns that `DO UPDATE SET` names; the e-mail is not among them.
abbrev pub take_profile : Account → Account → Account
take_profile new a = record a {
  username = new.username;
  display_name = new.display_name;
  avatar_url = new.avatar_url;
}

unfoldable pub upsert_account : Account → Statement String
upsert_account row t = elim (find (is_account row.provider row.provider_account_id) t.accounts) [
  | some old ↦ ok (
    old.id,
    record t {
      accounts =
          update (is_account row.provider row.provider_account_id) (take_profile row) t.accounts;
    },
  )
  | none ↦
      if any (has_id row.id) t.accounts
      then err unique_violation
      else ok (row.id, record t { accounts = row ∷ t.accounts })
]

pub record UpdateAccountParams : Type 0 where
  pub id : String
  pub username : String
  pub email : String
  pub display_name : String
  pub avatar_url : String

abbrev pub set_profile : UpdateAccountParams → Account → Account
set_profile arg a = record a {
  username = arg.username;
  email = arg.email;
  display_name = arg.display_name;
  avatar_url = arg.avatar_url;
}

unfoldable pub update_account : UpdateAccountParams → Statement Unit
update_account arg t =
    ok (tt, record t { accounts = update (has_id arg.id) (set_profile arg) t.accounts })

-- `ON DELETE CASCADE` takes the account's sessions with it.
unfoldable pub delete_account : String → Statement Unit
delete_account id t = ok (
  tt,
  record t {
    accounts = without (has_id id) t.accounts;
    sessions = without (belongs_to id) t.sessions;
  },
)

unfoldable pub create_session : Session → Statement Unit
create_session s t =
    if any (has_session_id s.id) t.sessions
    then err unique_violation
    else if any (has_id s.account_id) t.accounts
    then ok (tt, record t { sessions = s ∷ t.sessions })
    else err foreign_key_violation

pub record UpdateSessionParams : Type 0 where
  pub id : String
  pub access_token : String
  pub refresh_token : Option String
  pub access_token_expires_at : Option ℕ

abbrev pub set_tokens : UpdateSessionParams → Session → Session
set_tokens arg s = record s {
  access_token = arg.access_token;
  refresh_token = arg.refresh_token;
  access_token_expires_at = arg.access_token_expires_at;
}

unfoldable pub update_session : UpdateSessionParams → Statement Unit
update_session arg t =
    ok (tt, record t { sessions = update (has_session_id arg.id) (set_tokens arg) t.sessions })

unfoldable pub delete_session : String → Statement Unit
delete_session id t = ok (tt, record t { sessions = without (has_session_id id) t.sessions })

unfoldable pub delete_expired_sessions : ℕ → Statement Unit
delete_expired_sessions now t =
    ok (tt, record t { sessions = without (λ s. ltb s.expires_at now) t.sessions })

-- Not called by the program. `expires_at > now()` is strict.
unfoldable pub get_valid_oauth2_verifier : String → ℕ → Statement (Option String)
get_valid_oauth2_verifier state now t =
    elim (find (λ r. has_state state r && ltb now r.expires_at) t.oauth2_states) [
      | none ↦ err no_rows
      | some r ↦ ok (r.verifier, t)
    ]
