-- ===== src/Handler/Callback/Replay.antt =====
-- A state is good for one return of the browser.
use mathlib.Core.Path.{subst}
use mkrepo.Base.{
  ℕ, String, ◌≡◌, refl, ◌∙◌, Option, none, some, find, without, [], ok, err, Option-cases, inl, inr,
}
use mkrepo.Base.Dict.{lookup}
use mkrepo.Provider.{Token, User}
use mkrepo.Provider.Registry.{Provider}
use mkrepo.Database
use mkrepo.Database.{
  no_rows, Session, Tables, has_state, get_and_delete_oauth2_state, upsert_account,
}
use mkrepo.Database.{create_session, is_account, has_id, has_session_id}
use mkrepo.Database.Db.{Db, healthy, run}
use mkrepo.Database.Effects.{find-without_self}
use mkrepo.Base.{ap, sym, List}
use mkrepo.Database.{OAuth2State, Statement}
use mkrepo.Database.Steps.{Leaves}
use mkrepo.Database.Interleaving.States.{upsert_account-states, create_session-states}
use mkrepo.Database.Db.Laws.{run-healthy, run-faults, run-cases}
use mkrepo.Handler.{Env, Request, form_value, http_error}
use mkrepo.Handler.Action.{◌>>=◌}
use mkrepo.Handler.Preserves.{Preserves, StatementPreserves, preserves_rules}
use mkrepo.Handler.Callback.{
  CallbackInputs, encrypted, open_session, identify, after_state, oauth2_callback,
}

abbrev states : Tables → List OAuth2State
states t = t.oauth2_states

-- No row has the state, and the connection does not fail.
pub record Spent (state : String) (db : Db) : Type 0 where
  pub gone : find (has_state state) db.tables.oauth2_states ≡ none
  pub no_faults : db.faults ≡ []

module _ (state : String) where
  run-Spent :
      {A : Type 0} (st : Statement A)
      → ((t t' : Tables) → Leaves (st t) t' → t'.oauth2_states ≡ t.oauth2_states)
      → StatementPreserves (Spent state) st
  run-Spent st same = record {
    after = λ db spent. record {
      gone = ap (find (has_state state)) (unmoved db) ∙ spent.gone;
      no_faults = run-faults st db spent.no_faults;
    };
  }
    where
      unmoved : (db : Db) → (run st db).1.tables.oauth2_states ≡ db.tables.oauth2_states
      unmoved db = elim (run-cases st db) [
        | inl leaves ↦ same db.tables _ leaves
        | inr kept ↦ ap states kept
      ]

  upsert_account-Spent :
      (a : Database.Account) → StatementPreserves (Spent state) (upsert_account a)
  upsert_account-Spent a =
      run-Spent (upsert_account a) (λ t t' h. sym (upsert_account-states a t t' h))

  create_session-Spent : (s : Session) → StatementPreserves (Spent state) (create_session s)
  create_session-Spent s =
      run-Spent (create_session s) (λ t t' h. sym (create_session-states s t t' h))

taken_row :
    (state : String) (row : OAuth2State) (t : Tables)
    → find (has_state state) t.oauth2_states ≡ some row
    → get_and_delete_oauth2_state state t
      ≡ ok (row, record t { oauth2_states = without (has_state state) t.oauth2_states })
unfolding get_and_delete_oauth2_state
taken_row state row t there = rw (there, get_and_delete_oauth2_state)

run-failing :
    (state : String) (t : Tables)
    → find (has_state state) t.oauth2_states ≡ none
    → run (get_and_delete_oauth2_state state) (healthy t) ≡ (err no_rows, healthy t)
unfolding run get_and_delete_oauth2_state
run-failing state t missing = rw (missing, get_and_delete_oauth2_state)

ruleset spent_rules = (preserves_rules, upsert_account-Spent, create_session-Spent)

module _ {Block : Type 0} (env : Env Block) (inputs : CallbackInputs) (state : String) where
  encrypted-Spent :
      (random : ℕ → Option String) (text : String)
      → Preserves (Spent state) (encrypted env inputs random text)
  unfolding encrypted
  encrypted-Spent random text = search spent_rules

  open_session-Spent :
      (key : String) (token : Token) (user : User)
      → Preserves (Spent state) (open_session env inputs key token user)
  unfolding open_session
  open_session-Spent key token user = search (spent_rules, encrypted-Spent) depth 12

  identify-Spent :
      (r : Request) (pr : Provider) (verifier : Option String)
      → Preserves (Spent state) (identify env inputs r pr verifier)
  unfolding identify
  identify-Spent r pr verifier = search spent_rules depth 9

  after_state-Spent :
      (r : Request) (pr : Provider) (row : OAuth2State)
      → Preserves (Spent state) (after_state env inputs r pr row)
  unfolding after_state
  after_state-Spent r pr row = search (spent_rules, identify-Spent, open_session-Spent) depth 12

  -- A return of the browser, whatever comes of it, leaves no row with its state.
  callback-Spent :
      (r : Request) (pr : Provider) (t : Tables)
      → form_value r "error" ≡ ""
      → lookup r.path_provider env.providers ≡ some pr
      → form_value r "state" ≡ state
      → Spent state (oauth2_callback env inputs r (healthy t)).1
  unfolding oauth2_callback ◌>>=◌
  callback-Spent r pr t no_error known same =
      elim (Option-cases (find (has_state state) t.oauth2_states)) [
        | inl missing ↦
            rw (no_error, known, same, run-failing state t missing)
              (record { gone = missing; no_faults = refl })
        | inr (row, there) ↦
            rw (no_error, known, same, run-healthy _ t (taken_row state row t there))
              ((after_state-Spent r pr row).after
                (healthy (record t { oauth2_states = without (has_state state) t.oauth2_states }))
                (record {
                  gone = find-without_self (has_state state) t.oauth2_states;
                  no_faults = refl;
                }))
      ]

  refused_healthy :
      (r : Request) (pr : Provider) (t : Tables)
      → form_value r "error" ≡ ""
      → lookup r.path_provider env.providers ≡ some pr
      → form_value r "state" ≡ state
      → find (has_state state) t.oauth2_states ≡ none
      → oauth2_callback env inputs r (healthy t) ≡ (err (http_error "Invalid state" 400), healthy t)
  unfolding oauth2_callback ◌>>=◌
  refused_healthy r pr t no_error known same missing =
      rw (no_error, known, same, run-failing state t missing)

  -- Once no row has the state, a return with it is refused, and changes nothing.
  refused :
      (r : Request) (pr : Provider) (db : Db)
      → form_value r "error" ≡ ""
      → lookup r.path_provider env.providers ≡ some pr
      → form_value r "state" ≡ state
      → Spent state db
      → oauth2_callback env inputs r db ≡ (err (http_error "Invalid state" 400), db)
  refused r pr db no_error known same spent =
      subst (λ d. oauth2_callback env inputs r d ≡ (err (http_error "Invalid state" 400), d))
        (λ i. record { tables = db.tables; faults = sym spent.no_faults i })
        (refused_healthy r pr db.tables no_error known same spent.gone)

-- A state is good for one return. On a connection without faults, after a return of the browser to
-- a known provider and without an error message, whatever came of it, any other such return with
-- the same state, at any time and for any known provider, is refused, and leaves the database as it
-- was.
pub callback_once :
    {Block : Type 0} (env : Env Block) (first later : CallbackInputs) (r r' : Request)
    (pr pr' : Provider) (t : Tables)
    → form_value r "error" ≡ ""
    → lookup r.path_provider env.providers ≡ some pr
    → form_value r' "error" ≡ ""
    → lookup r'.path_provider env.providers ≡ some pr'
    → form_value r' "state" ≡ form_value r "state"
    → let db = (oauth2_callback env first r (healthy t)).1 in
      oauth2_callback env later r' db ≡ (err (http_error "Invalid state" 400), db)
callback_once env first later r r' pr pr' t no_error known no_error' known' same =
    refused env later (form_value r "state") r' pr' _ no_error' known' same
      (callback-Spent env first (form_value r "state") r pr t no_error known refl)
