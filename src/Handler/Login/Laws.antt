-- ===== src/Handler/Login/Laws.antt =====
-- The beginning of a login, and the two ways to end a session.
use mkrepo.Base.{◌+◌, ◌*◌, String, Bool, false, ◌≡◌, refl, ◌≢◌, Option, none, some, List, [], ◌∷◌}
use mkrepo.Base.{
  ◌==◌, eq_iff, eq_refl, any, find, without, Elem, ok, err, arith, if◌then◌else◌, Option-cases, inl,
  inr,
}
use mkrepo.Base.Dict.{lookup}
use mkrepo.Provider.Registry.{Provider, features, oauth2_config}
use mkrepo.Database.{
  Session, Tables, has_state, has_session_id, belongs_to, get_and_delete_oauth2_state,
}
use mkrepo.Database.{
  create_oauth2_state, delete_session, delete_account, get_account_session, join_account,
}
use mkrepo.Database.Db.{healthy, run}
use mkrepo.Database.Db.Laws.{run-healthy}
use mkrepo.Database.Constraints.{IsConsistent}
use mkrepo.Database.Accounts.{same_row}
use mkrepo.Database.Effects.{find-without_self, find_sound, Elem-without_iff}
use mkrepo.Database.{OAuth2State}
use mkrepo.Handler
use mkrepo.Handler.{Env, Request, redirect, form_value, session_cookie_name}
use mkrepo.Handler.Action.{◌>>=◌}
use mkrepo.Handler.Session.{Inputs, no_session, authenticate_session}
use mkrepo.Handler.Login.{LoginInputs, begin_login, login, logout, delete_account_handler, second}

without_of_any : {A : Type 0} (p : A → Bool) (xs : List A) → any p xs ≡ false → without p xs ≡ xs
without_of_any p [] h = refl
without_of_any p (x ∷ xs) h = ground (arith, without_of_any p xs)

create_fresh :
    (row : OAuth2State) (t : Tables)
    → any (has_state row.state) t.oauth2_states ≡ false
    → create_oauth2_state row t ≡ ok (tt, record t { oauth2_states = row ∷ t.oauth2_states })
unfolding create_oauth2_state
create_fresh row t h = rw h

taken_fresh :
    (row : OAuth2State) (t : Tables)
    → any (has_state row.state) t.oauth2_states ≡ false
    → get_and_delete_oauth2_state row.state (record t { oauth2_states = row ∷ t.oauth2_states })
      ≡ ok (row, t)
unfolding get_and_delete_oauth2_state
taken_fresh row t fresh = rw (found, gone, get_and_delete_oauth2_state) refl
  where
    found : find (has_state row.state) (row ∷ t.oauth2_states) ≡ some row
    found = rw (eq_refl row.state) refl

    gone : without (has_state row.state) (row ∷ t.oauth2_states) ≡ t.oauth2_states
    gone = rw (eq_refl row.state) (without_of_any (has_state row.state) t.oauth2_states fresh)

logout_lem :
    (r : Request) (id : String) (t : Tables)
    → lookup session_cookie_name r.cookies ≡ some id
    → (logout r (healthy t)).1
      ≡ healthy (record t { sessions = without (has_session_id id) t.sessions })
unfolding logout run delete_session
logout_lem r id t h = rw (h, logout)

-- The session's ID is that of no other session, so none of the rows that stay has it.
no_session_left :
    (id : String) (s : Session) (t : Tables)
    → IsConsistent t
    → Elem s t.sessions
    → s.account_id ≡ id
    → find (has_session_id s.id) (without (belongs_to id) t.sessions) ≡ none
no_session_left id s t c there own =
    elim (Option-cases (find (has_session_id s.id) (without (belongs_to id) t.sessions))) [
      | inl missing ↦ missing
      | inr (other, found) ↦
          let (kept, named) = find_sound (has_session_id s.id) _ found in
          let (elem, not_owned) = (Elem-without_iff (belongs_to id) other t.sessions).0 kept in
          let e : other ≡ s =
            same_row (λ (x : Session). x.id) t.sessions c.unique_sessions elem there
              ((eq_iff other.id s.id).0 named) in
          cc (e, (eq_iff s.account_id id).1 own)
    ]

module _ {Block : Type 0} (env : Env Block) where
  -- On a connection without faults a login with a known provider and a state that is not in use
  -- sends the browser to the provider
  -- with that state. The state then returns once, with the verifier exactly if the provider uses
  -- PKCE and with fifteen minutes to live, and taking it leaves the tables as they were.
  pub login_lem :
      (inputs : LoginInputs) (r : Request) (pr : Provider) (t : Tables)
      → form_value r "provider" ≢ ""
      → lookup (form_value r "provider") env.providers ≡ some pr
      → any (has_state inputs.state) t.oauth2_states ≡ false
      → let verifier : Option String =
          if (features pr).oauth2_authorization_code_flow_with_pkce
          then some inputs.verifier
          else none in
        (t' : Tables) × (login env inputs r (healthy t) ≡ (
          ok (
              redirect
                (env.auth_code_url (oauth2_config env.endpoints pr) inputs.state verifier)
                []),
          healthy t',
        ))
        × (get_and_delete_oauth2_state inputs.state t'
            ≡ ok (
              record {
                state = inputs.state;
                verifier = verifier;
                expires_at = inputs.now + 15 * 60 * second;
              },
              t,
            ))
  unfolding login begin_login ◌>>=◌
  login_lem inputs r pr t given known fresh =
      let verifier : Option String =
        if (features pr).oauth2_authorization_code_flow_with_pkce
        then some inputs.verifier
        else none in
      let row : OAuth2State = record {
        state = inputs.state;
        verifier = verifier;
        expires_at = inputs.now + 15 * 60 * second;
      } in
      (
        record t { oauth2_states = row ∷ t.oauth2_states },
        rw (other, known, run-healthy (create_oauth2_state row) t (create_fresh row t fresh)),
        taken_fresh row t fresh,
      )
    where
      other : (form_value r "provider" == "") ≡ false
      other = ground (arith, eq_iff (form_value r "provider") "")

  no_row :
      (inputs : Inputs) (id : String) (t : Tables)
      → find (has_session_id id) t.sessions ≡ none
      → (authenticate_session env inputs id (healthy t)).0 ≡ err no_session
  unfolding authenticate_session get_account_session run ◌>>=◌
  no_row inputs id t h = rw (h, join_account)

  -- On a connection without faults the cookie that was sent no longer authenticates after a logout.
  pub authenticate_session-logout :
      (inputs : Inputs) (r : Request) (id : String) (t : Tables)
      → lookup session_cookie_name r.cookies ≡ some id
      → (authenticate_session env inputs id (logout r (healthy t)).1).0 ≡ err no_session
  authenticate_session-logout inputs r id t sent =
      rw (logout_lem r id t sent)
        (no_row inputs id _ (find-without_self (has_session_id id) t.sessions))

  -- On a connection without faults and from consistent tables, none of the sessions of an account
  -- authenticates after the account is deleted.
  pub authenticate_session-delete_account :
      (inputs : Inputs) (a : Handler.Account) (s : Session) (t : Tables)
      → IsConsistent t
      → Elem s t.sessions
      → s.account_id ≡ a.id
      → (authenticate_session env inputs s.id (delete_account_handler a (healthy t)).1).0
        ≡ err no_session
  authenticate_session-delete_account inputs a s t c there own =
      unfold delete_account_handler run delete_account ◌>>=◌ in
      no_row inputs s.id _ (no_session_left a.id s t c there own)
