-- ===== src/Server/Traffic/Login.antt =====
-- A login from its beginning to a request that it authenticates.
use mathlib.Core.Path.{subst}
use mkrepo.Base.{
  ◌+◌, ◌*◌, ◌≤◌, String, ◌≡◌, ◌≢◌, sym, ap, ◌∙◌, false, Option, none, some, [], ◌∷◌, ok, any,
  if◌then◌else◌,
}
use mkrepo.Base.Dict.{lookup}
use mkrepo.Provider.{Token, User, Client, OAuth2Config}
use mkrepo.Database.Accounts.{email_after}
use mkrepo.Provider.Registry.{Provider, features, oauth2_config, new_client}
use mkrepo.Database.{OAuth2State, Tables, has_state, upsert_account, create_session}
use mkrepo.Database.{get_and_delete_oauth2_state}
use mkrepo.Database.Db.{Db, healthy}
use mkrepo.Database.Constraints.{IsConsistent}
use mkrepo.Database.Crypto.{Gcm, encrypt}
use mkrepo.Database.Crypto.Laws.{IsLawful, Fills}
use mkrepo.Service.Work.{History}
use mkrepo.Handler.{
  Account, Request, Response, redirect, session_cookie, form_value, session_cookie_name,
}
use mkrepo.Handler.Action.{Action}
use mkrepo.Handler.Integrity.{handlers-IsConsistent}
use mkrepo.Handler.Login.{login, serve, either, second}
use mkrepo.Handler.Login.Laws.{login_lem}
use mkrepo.Handler.Callback.{session_lifetime, seconds_until, oauth2_callback}
use mkrepo.Handler.Callback.Laws.{account_row, session_row, callback-authenticate_session}
use mkrepo.Server.{
  Site, RequestInputs, Run, routes, handled, dispatched, chosen, serve_mux, new_server,
}
use mkrepo.Server.Laws.{without_cookie, with_session}
use mkrepo.Server.Mux.Pattern.Laws.{Allows}
use mkrepo.Server.Mux.{path_of}
use mkrepo.Server.Routes.Callback.{callback_words, IsSegment, callback_chosen}
use mkrepo.Server.Routes.Laws.{chosen_iff}

-- The verifier goes to a provider with PKCE alone.
abbrev pub verifier_for : Provider → String → Option String
verifier_for pr verifier =
    if (features pr).oauth2_authorization_code_flow_with_pkce then some verifier else none

module _ {Block Schema : Type 0} (site : Site Block Schema) where
  -- What an action of a handler comes to as a run.
  answered_run :
      (action : Action Response Response) (db db' : Db) (response : Response) (h : History)
      → action db ≡ (ok response, db')
      → ◌≡◌ {A = Run}
          (record { answer = ok (serve action db).0; db = (serve action db).1; history = h })
          (record { answer = ok response; db = db'; history = h })
  answered_run action db db' response h e =
      ap (λ x. record { answer = ok (either x.0); db = x.1; history = h }) e

  login_run :
      (inputs : RequestInputs) (r : Request) (db db' : Db) (response : Response) (h : History)
      → lookup session_cookie_name r.cookies ≡ none
      → chosen site inputs r ≡ some "GET /auth/login"
      → login site.env inputs.login r db ≡ (ok response, db')
      → new_server site inputs r db h ≡ record { answer = ok response; db = db'; history = h }
  unfolding serve_mux dispatched handled routes lookup
  login_run inputs r db db' response h anonymous route e =
      ap (λ s. s h) (without_cookie site inputs r db anonymous)
      ∙ rw (route, dispatched) (answered_run (login site.env inputs.login r) db db' response h e)

  callback_run :
      (inputs : RequestInputs) (r : Request) (db db' : Db) (response : Response) (h : History)
      → lookup session_cookie_name r.cookies ≡ none
      → chosen site inputs r ≡ some "GET /auth/oauth2/callback/{provider}"
      → oauth2_callback site.env inputs.callback r db ≡ (ok response, db')
      → new_server site inputs r db h ≡ record { answer = ok response; db = db'; history = h }
  unfolding serve_mux dispatched handled routes lookup
  callback_run inputs r db db' response h anonymous route e =
      ap (λ s. s h) (without_cookie site inputs r db anonymous)
      ∙ rw (route, dispatched)
          (answered_run (oauth2_callback site.env inputs.callback r) db db' response h e)

  -- Three requests: the login page with a provider, the return of the browser, and a later one.
  module _ (in₁ in₂ in₃ : RequestInputs) (r₁ r₂ r₃ : Request) (h : History) (pr : Provider)
      (source : OAuth2Config → Token → Option Token) (token fresh : Token) (client : Client)
      (user : User) (t t₂ t₃ : Tables) (account_id access refresh : String)
      (starts : Allows "GET" r₁.method × (r₁.path ≡ "/auth/login"))
      (anonymous₁ : lookup session_cookie_name r₁.cookies ≡ none)
      (names_provider : form_value r₁ "provider" ≢ "")
      (known : lookup (form_value r₁ "provider") site.env.providers ≡ some pr)
      (new_state : any (has_state in₁.login.state) t.oauth2_states ≡ false)
      (returns : Allows "GET" r₂.method × (r₂.path ≡ path_of (callback_words r₂.path_provider)))
      (segment : IsSegment r₂.path_provider)
      (anonymous₂ : lookup session_cookie_name r₂.cookies ≡ none)
      (same_provider : r₂.path_provider ≡ form_value r₁ "provider")
      (same_state : form_value r₂ "state" ≡ in₁.login.state) (no_error : form_value r₂ "error" ≡ "")
      (in_time : in₂.callback.now ≤ in₁.login.now + 15 * 60 * second) where
    module _
        (exchanged : site.env.exchange
            (oauth2_config site.env.endpoints pr)
            (form_value r₂ "code")
            (verifier_for pr in₁.login.verifier)
          ≡ some token)
        (connected : new_client site.env.sdk pr token ≡ ok client)
        (named : client.get_user ≡ ok user)
        (upserted : upsert_account (account_row in₂.callback r₂.path_provider user) t
          ≡ ok (account_id, t₂))
        (access_encrypted : encrypt site.env.library site.env.encryption_key
            in₂.callback.random_access token.access_token
          ≡ ok access)
        (refresh_encrypted : encrypt site.env.library site.env.encryption_key
            in₂.callback.random_refresh token.refresh_token
          ≡ ok refresh)
        (created : create_session (session_row in₂.callback token access refresh account_id) t₂
          ≡ ok (tt, t₃))
        (consistent : IsConsistent t) {g : Gcm} {block : Block}
        (good_key : site.env.library.new_cipher site.env.encryption_key ≡ some block)
        (good_block : site.env.library.new_gcm block ≡ some g) (lawful : IsLawful g)
        (access_filled : Fills in₂.callback.random_access)
        (refresh_filled : Fills in₂.callback.random_refresh)
        (sends_cookie : lookup session_cookie_name r₃.cookies ≡ some in₂.callback.session_id)
        (on_time : in₃.auth.now ≤ in₂.callback.issued_at + session_lifetime)
        (sourced : source (oauth2_config site.env.endpoints pr) token ≡ some fresh)
        (unchanged : fresh.access_token ≡ token.access_token) where
      -- On a connection without faults and from consistent tables, a login works from its beginning
      -- to its end. A GET or HEAD of /auth/login without a session cookie, with a known provider and a
      -- state that is not in use, sends the browser to the provider. When the next request is the
      -- browser's return, still without a cookie, to the path of the callback of that provider within
      -- fifteen minutes, with that state, without an error and with a code, and the provider names the
      -- user, both tokens are encrypted and the statements succeed, it is sent to the start page with
      -- the cookie of a new session. With a cipher that opens what it sealed and nonces of the size
      -- that was asked for, the request right after that, if it has that cookie and comes before the
      -- session expires, and if the token source of that time does not replace the access token, is
      -- served for the provider's account of that user, with the user name, the display name and the
      -- avatar that the provider gave and the token that the token source returns. The e-mail is the
      -- provider's for an account that was not known; a known account keeps the e-mail that it had.
      -- The tables are those of sql/schema.sql.
      pub login_works :
          let run₁ = new_server site in₁ r₁ (healthy t) h in
          let run₂ = new_server site in₂ r₂ run₁.db run₁.history in
          let next = record site { env = record site.env { token_source = source } } in
          (run₁.answer
            ≡ ok (
                redirect
                  (site.env.auth_code_url
                    (oauth2_config site.env.endpoints pr)
                    in₁.login.state
                    (verifier_for pr in₁.login.verifier))
                  []))
          × (run₂ ≡ record {
            answer = ok (
                redirect "/" (
                  session_cookie in₂.callback.session_id (
                    seconds_until in₂.callback.cookie_at
                      (in₂.callback.issued_at + session_lifetime))
                  ∷ []));
            db = healthy t₃;
            history = h;
          })
          × ((account : Account) × (account.provider_key ≡ form_value r₁ "provider")
              × (account.provider_account_id ≡ user.id)
              × (account.username ≡ user.username)
              × (account.display_name ≡ user.display_name)
              × (account.avatar_url ≡ user.avatar_url)
              × (account.email ≡ email_after (account_row in₂.callback r₂.path_provider user) t)
              × (account.token ≡ fresh)
              × (new_server next in₃ r₃ run₂.db ≡ serve_mux next in₃ (some account) r₃ run₂.db))
      login_works =
          let next : Site Block Schema = record site {
            env = record site.env { token_source = source };
          } in
          let route₂ = callback_chosen site in₂ r₂ segment returns in
          let route₁ = (chosen_iff site in₁ r₁).0.1 starts in
          let (t', begun, taken) =
            login_lem site.env in₁.login r₁ pr t names_provider known new_state in
          let consistent' : IsConsistent t' =
            subst (λ x. IsConsistent x.1.tables) begun
              ((handlers-IsConsistent site.env (healthy t) consistent).1 in₁.login r₁) in
          let row : OAuth2State = record {
            state = in₁.login.state;
            verifier = verifier_for pr in₁.login.verifier;
            expires_at = in₁.login.now + 15 * 60 * second;
          } in
          let taken' : get_and_delete_oauth2_state (form_value r₂ "state") t' ≡ ok (row, t) =
            subst (λ s. get_and_delete_oauth2_state s t' ≡ ok (row, t)) (sym same_state) taken in
          let known' = ap (λ k. lookup k site.env.providers) same_provider ∙ known in
          let (called, (account, authenticated, key, id, name, display, avatar, mail, given)) =
            callback-authenticate_session site.env in₂.callback r₂ pr token client user row t' t t₂
              t₃ account_id access refresh no_error known' taken' in_time exchanged connected named
              upserted access_encrypted refresh_encrypted created consistent' good_key good_block
              lawful access_filled refresh_filled source in₃.auth fresh on_time sourced unchanged in
          let first = login_run in₁ r₁ (healthy t) (healthy t') _ h anonymous₁ route₁ begun in
          let second_run =
            callback_run in₂ r₂ (healthy t') (healthy t₃) _ h anonymous₂ route₂ called in
          let returned = ap (λ run. new_server site in₂ r₂ run.db run.history) first ∙ second_run in
          (
            ap (λ run. run.answer) first,
            returned,
            (
              account,
              key ∙ same_provider,
              id,
              name,
              display,
              avatar,
              mail,
              given,
              subst (λ d. new_server next in₃ r₃ d ≡ serve_mux next in₃ (some account) r₃ d)
                  (sym (ap (λ run. run.db) returned))
                  (with_session next in₃ r₃ (healthy t₃) in₂.callback.session_id account
                      sends_cookie (ap (λ x. x.0) authenticated)
                    ∙ ap (λ x. serve_mux next in₃ (some account) r₃ x.1) authenticated),
            ),
          )
