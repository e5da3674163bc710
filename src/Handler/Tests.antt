-- ===== src/Handler/Tests.antt =====
-- Runs of the handlers, and their theorems at concrete data.
use mkrepo.Base.{◌*◌, ◌+◌, ◌≤◌, String, ◌<>◌, ◌≡◌, refl, ◌≢◌, ◌⊎◌, Option, none, some, [], ◌∷◌}
use mkrepo.Base.{arith, ok, err, eq_iff}
use mkrepo.Base.Int.{format_int}
use mkrepo.Base.Dict.{lookup}
use mkrepo.Provider.Github
use mkrepo.Provider.Github.{GithubApi, github_client}
use mkrepo.Provider.Registry.{Provider, new_client, oauth2_config, features}
use mkrepo.Database.{Tables, empty_tables, GetAccountSessionRow}
use mkrepo.Database.{get_and_delete_oauth2_state, upsert_account, create_session}
use mkrepo.Database.Db.{Db, healthy}
use mkrepo.Database.Constraints.{IsConsistent}
use mkrepo.Database.Join.{Joins}
use mkrepo.Database.Crypto.{encrypt}
use mkrepo.Handler.{Account, Request, Response, redirect, session_cookie, http_error, form_value}
use mkrepo.Handler.Session.{AuthError, authenticate_session, account_of}
use mkrepo.Handler.Session.Laws.{authenticate_session_sound}
use mkrepo.Handler.Login.{clear, login, second}
use mkrepo.Handler.Login.Laws.{login_lem}
use mkrepo.Handler.Callback.{oauth2_callback, session_lifetime, seconds_until}
use mkrepo.Database.Accounts.{email_after}
use mkrepo.Handler.Callback.Laws.{account_row}
use mkrepo.Handler.Callback.Laws.{account_row, callback-authenticate_session}
use mkrepo.Handler.Callback.Replay.{callback_once}
use mkrepo.Handler.Middleware.{response_writer, authenticate_middleware, must_authenticate}
use mkrepo.Handler.Middleware.Laws.{login_page, must_authenticate-authenticate_middleware}
use mkrepo.Handler.Tokens.{encrypt_tokens, decrypt_tokens, decrypt_tokens-encrypt_tokens}
use mkrepo.Handler.Samples.{
  plain-IsLawful, one_key, zeros-Fills, hub, hub_found, api, bearer, env, request, login_request,
  return, login_inputs, callback_inputs, later, row, user, waiting, known_account, session,
  logged_in,
}

waiting-IsConsistent : IsConsistent waiting
waiting-IsConsistent = record {
  unique_states = (tt, tt);
  unique_ids = tt;
  unique_accounts = tt;
  unique_sessions = tt;
  owned = tt;
}

no_error : form_value return "error" ≡ ""
unfolding form_value lookup
no_error = refl

taken : get_and_delete_oauth2_state (form_value return "state") waiting ≡ ok (row, empty_tables)
unfolding get_and_delete_oauth2_state form_value lookup
taken = refl

exchanged :
    env.exchange (oauth2_config env.endpoints hub) (form_value return "code") none ≡ some bearer
unfolding form_value lookup
exchanged = refl

connected : new_client env.sdk hub bearer ≡ ok (github_client api bearer)
unfolding new_client
connected = refl

named : (github_client api bearer).get_user ≡ ok user
unfolding github_client Github.github_get_user format_int
named = refl

upserted :
    upsert_account (account_row callback_inputs "github" user) empty_tables
    ≡ ok ("1", known_account)
unfolding upsert_account
upserted = refl

access_sealed : encrypt one_key "key" callback_inputs.random_access "at" ≡ ok "00at"
unfolding encrypt
access_sealed = refl

refresh_sealed : encrypt one_key "key" callback_inputs.random_refresh "rt" ≡ ok "00rt"
unfolding encrypt
refresh_sealed = refl

created : create_session session known_account ≡ ok (tt, logged_in)
unfolding create_session
created = refl

callback-authenticate_session_example :
    (oauth2_callback env callback_inputs return (healthy waiting) ≡ (
      ok (redirect "/" (session_cookie "s" (seconds_until 8 (7 + session_lifetime)) ∷ [])),
      healthy logged_in,
    ))
    × ((account : Account) × (authenticate_session env later "s" (healthy logged_in)
          ≡ (ok account, healthy logged_in))
        × (account.provider_key ≡ "github")
        × (account.provider_account_id ≡ "77")
        × (account.username ≡ "ann")
        × (account.display_name ≡ "Ann")
        × (account.avatar_url ≡ "")
        × (account.email ≡ email_after (account_row callback_inputs "github" user) empty_tables)
        × (account.token ≡ bearer))
callback-authenticate_session_example =
    callback-authenticate_session env callback_inputs return hub bearer (github_client api bearer)
      user row waiting empty_tables known_account logged_in "1" "00at" "00rt" no_error hub_found
      taken (omega arith) exchanged connected named upserted access_sealed refresh_sealed created
      waiting-IsConsistent refl refl plain-IsLawful zeros-Fills zeros-Fills (λ c token. some token)
      later bearer (omega arith) refl refl

callback_once_example :
    let db = (oauth2_callback env callback_inputs return (healthy waiting)).1 in
    oauth2_callback env callback_inputs return db ≡ (err (http_error "Invalid state" 400), db)
callback_once_example =
    callback_once env callback_inputs callback_inputs return return hub hub waiting no_error
      hub_found no_error hub_found refl

authenticated :
    authenticate_session env later "s" (healthy logged_in)
    ≡ (ok callback-authenticate_session_example.1.0, healthy logged_in)
authenticated = callback-authenticate_session_example.1.1

provider_given : form_value login_request "provider" ≢ ""
unfolding form_value lookup
provider_given = ground (arith, eq_iff "github" "")

abbrev ann : Account
ann = record {
  id = "1";
  provider_key = "github";
  provider_account_id = "77";
  email = "a@x";
  username = "ann";
  display_name = "Ann";
  avatar_url = "";
  token = bearer;
}

decrypt_tokens-encrypt_tokens_example :
    (stored : String × Option String) × (encrypt_tokens one_key "key"
        (λ n. some "ab")
        (λ n. some "cd")
        "at"
        ""
      ≡ ok stored)
    × (decrypt_tokens one_key "key" stored.0 stored.1 ≡ ok ("at", ""))
decrypt_tokens-encrypt_tokens_example =
    decrypt_tokens-encrypt_tokens one_key "key" refl refl plain-IsLawful (λ n. some "ab")
      (λ n. some "cd") "ab" "cd" "at" "" refl refl refl refl

authenticate_session_sound_example :
    (found : GetAccountSessionRow) × Joins logged_in "s" found
    × (9 ≤ found.expires_at)
    × ((pr : Provider) × (lookup found.provider env.providers ≡ some pr))
    × (callback-authenticate_session_example.1.0
        ≡ account_of found callback-authenticate_session_example.1.0.token)
authenticate_session_sound_example =
    authenticate_session_sound env later "s" (healthy logged_in) authenticated

answering : Account → Request → Db → Response × Db
answering account r db = (redirect ("/hello/" <> account.username) [], db)

must_authenticate-authenticate_middleware_example :
    let answer : Response × Db =
      authenticate_middleware env later response_writer
        (must_authenticate response_writer answering)
        request
        (healthy logged_in) in
    ((id : String) × (account : Account) × (lookup "session" request.cookies ≡ some id)
      × ((authenticate_session env later id (healthy logged_in)).0 ≡ ok account)
      × (answer
          ≡ answering account request (authenticate_session env later id (healthy logged_in)).1))
    ⊎ ((id : String) × (e : AuthError) × (lookup "session" request.cookies ≡ some id)
        × ((authenticate_session env later id (healthy logged_in)).0 ≡ err e)
        × (answer ≡ (
          redirect (login_page request) (clear ∷ []),
          (authenticate_session env later id (healthy logged_in)).1,
        )))
    ⊎ ((lookup "session" request.cookies ≡ none)
        × (answer ≡ (redirect (login_page request) [], healthy logged_in)))
unfolding redirect
must_authenticate-authenticate_middleware_example =
    must_authenticate-authenticate_middleware env later response_writer answering request
      (healthy logged_in)

login_lem_example :
    (t : Tables) × (login env login_inputs login_request (healthy empty_tables)
      ≡ (ok (redirect "https://github.com/authorize?state=xyz" []), healthy t))
    × (get_and_delete_oauth2_state "xyz" t
        ≡ ok (
          record { state = "xyz"; verifier = none; expires_at = 5 + 15 * 60 * second },
          empty_tables,
        ))
unfolding features Github.github_features
login_lem_example =
    login_lem env login_inputs login_request hub empty_tables provider_given
      (unfold form_value lookup in hub_found) refl
