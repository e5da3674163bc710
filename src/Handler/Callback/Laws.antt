-- ===== src/Handler/Callback/Laws.antt =====
-- From the browser's return to a session that authenticates.
use mathlib.Core.Path.{subst}
use mkrepo.Base.{ℕ, zero, suc, ◌+◌, ◌≤◌, String, ◌≡◌, refl, ◌∙◌, sym, ap, Option, some, [], ◌∷◌}
use mkrepo.Base.{false, ok, arith, ltb, Elem}
use mkrepo.Base.Dict.{lookup}
use mkrepo.Provider.{Token, User, Client, OAuth2Config}
use mkrepo.Provider.Registry.{Provider, oauth2_config, new_client}
use mkrepo.Database
use mkrepo.Database.{
  OAuth2State, Session, Tables, Statement, get_and_delete_oauth2_state, upsert_account,
}
use mkrepo.Database.{create_session, get_account_session, joined}
use mkrepo.Database.Db.{Db, healthy}
use mkrepo.Database.Db.Laws.{run-healthy}
use mkrepo.Database.Constraints.{IsConsistent}
use mkrepo.Database.Steps.{Leaves-ok, Step-IsConsistent, takes_state, upserts}
use mkrepo.Database.Accounts.{
  upsert_account-IsUpserted, email_after, same_row, get_account_session-create_session,
}
use mkrepo.Database.Crypto.{Gcm, encrypt}
use mkrepo.Database.Crypto.Laws.{IsLawful, Fills, decrypt_of_encrypt}
use mkrepo.Handler.{Account, Env, Request, redirect, session_cookie, form_value}
use mkrepo.Handler.Action.{Action, query, ◌>>=◌}
use mkrepo.Handler.Session.{Inputs, authenticate_session, account_of, expiry_of}
use mkrepo.Handler.Session.Laws.{authenticate_session_unchanged}
use mkrepo.Handler.Tokens.{decrypt_tokens}
use mkrepo.Handler.Callback.{
  CallbackInputs, session_lifetime, seconds_until, expiry_or_nil, identify,
}
use mkrepo.Handler.Callback.{open_session, after_state, oauth2_callback, encrypted}

-- A step of an action that succeeds is passed.
bind_ok :
    {E A B : Type 0} (m : Action E A) (f : A → Action E B) (db db' : Db) (a : A)
    → m db ≡ (ok a, db')
    → (m >>= f) db ≡ f a db'
unfolding ◌>>=◌
bind_ok m f db db' a h = rw h

query-healthy :
    {E A : Type 0} (st : Statement A) (e : E) (t : Tables) {a : A} {t' : Tables}
    → st t ≡ ok (a, t')
    → query st e (healthy t) ≡ (ok a, healthy t')
unfolding query
query-healthy st e t h = rw (run-healthy st t h)

-- The row that `UpsertAccount` is given, and the one that `CreateSession` is given.
abbrev pub account_row : CallbackInputs → String → User → Database.Account
account_row inputs provider_key user = record {
  id = inputs.account_id;
  provider = provider_key;
  provider_account_id = user.id;
  email = user.email;
  username = user.username;
  display_name = user.display_name;
  avatar_url = user.avatar_url;
}

abbrev pub session_row : CallbackInputs → Token → String → String → String → Session
session_row inputs token access refresh account_id = record {
  id = inputs.session_id;
  access_token = access;
  refresh_token = some refresh;
  access_token_expires_at = expiry_or_nil token.expiry;
  expires_at = inputs.issued_at + session_lifetime;
  account_id = account_id;
}

expiry_back : (time : ℕ) → expiry_of (expiry_or_nil time) ≡ time
expiry_back zero = refl
expiry_back (suc n) = refl

module _ {Block : Type 0} (env : Env Block) (inputs : CallbackInputs) (r : Request) (pr : Provider)
    (token : Token) (client : Client) (user : User) (row : OAuth2State) (t t₁ t₂ t₃ : Tables)
    (account_id access refresh : String) (no_error : form_value r "error" ≡ "")
    (known : lookup r.path_provider env.providers ≡ some pr)
    (taken : get_and_delete_oauth2_state (form_value r "state") t ≡ ok (row, t₁))
    (live : inputs.now ≤ row.expires_at)
    (exchanged : env.exchange (oauth2_config env.endpoints pr) (form_value r "code") row.verifier
      ≡ some token)
    (connected : new_client env.sdk pr token ≡ ok client) (named : client.get_user ≡ ok user)
    (upserted : upsert_account (account_row inputs r.path_provider user) t₁ ≡ ok (account_id, t₂))
    (access_encrypted : encrypt env.library env.encryption_key inputs.random_access
        token.access_token
      ≡ ok access)
    (refresh_encrypted : encrypt env.library env.encryption_key inputs.random_refresh
        token.refresh_token
      ≡ ok refresh)
    (created : create_session (session_row inputs token access refresh account_id) t₂
      ≡ ok (tt, t₃)) where
  identify_lem : identify env inputs r pr row.verifier (healthy t₁) ≡ (ok (token, user), healthy t₁)
  unfolding identify ◌>>=◌
  identify_lem = rw (exchanged, connected, named)

  open_session_lem : open_session env inputs r.path_provider token user (healthy t₁) ≡ (
    ok (
        redirect "/" (
          session_cookie inputs.session_id
            (seconds_until inputs.cookie_at (inputs.issued_at + session_lifetime))
          ∷ [])),
    healthy t₃,
  )
  unfolding open_session encrypted ◌>>=◌
  open_session_lem =
      rw (run-healthy _ t₁ upserted, access_encrypted, refresh_encrypted, run-healthy _ t₂ created)

  callback_succeeds : oauth2_callback env inputs r (healthy t) ≡ (
    ok (
        redirect "/" (
          session_cookie inputs.session_id
            (seconds_until inputs.cookie_at (inputs.issued_at + session_lifetime))
          ∷ [])),
    healthy t₃,
  )
  unfolding oauth2_callback after_state ◌>>=◌
  callback_succeeds =
      let not_expired : ltb row.expires_at inputs.now ≡ false = ground arith in
      rw (no_error, known, run-healthy _ t taken, not_expired, identify_lem, open_session_lem)

  module _ (consistent : IsConsistent t) {g : Gcm} {block : Block}
      (good_key : env.library.new_cipher env.encryption_key ≡ some block)
      (good_block : env.library.new_gcm block ≡ some g) (lawful : IsLawful g)
      (access_filled : Fills inputs.random_access) (refresh_filled : Fills inputs.random_refresh)
      (source : OAuth2Config → Token → Option Token) (later : Inputs) (fresh : Token)
      (on_time : later.now ≤ inputs.issued_at + session_lifetime)
      (sourced : source (oauth2_config env.endpoints pr) token ≡ some fresh)
      (unchanged : fresh.access_token ≡ token.access_token) where
    account_of_user :
        (a : Database.Account)
        → Elem a t₂.accounts
        → a.id ≡ account_id
        → (a.provider ≡ r.path_provider)
          × (a.provider_account_id ≡ user.id)
          × (a.username ≡ user.username)
          × (a.display_name ≡ user.display_name)
          × (a.avatar_url ≡ user.avatar_url)
          × (a.email ≡ email_after (account_row inputs r.path_provider user) t₁)
    account_of_user a there same =
        let u =
          upsert_account-IsUpserted (account_row inputs r.path_provider user) t₁ t₂ account_id
            upserted in
        let c₁ =
          Step-IsConsistent (takes_state (form_value r "state") (Leaves-ok taken)) consistent in
        let c₂ = Step-IsConsistent (upserts _ (Leaves-ok upserted)) c₁ in
        let e : u.account ≡ a =
          same_row (λ b. b.id) t₂.accounts c₂.unique_ids u.there there (u.same_id ∙ sym same) in
        subst
          (λ b.
            (b.provider ≡ r.path_provider)
            × (b.provider_account_id ≡ user.id)
            × (b.username ≡ user.username)
            × (b.display_name ≡ user.display_name)
            × (b.avatar_url ≡ user.avatar_url)
            × (b.email ≡ email_after (account_row inputs r.path_provider user) t₁))
          e
          (
            u.same_provider, u.same_account, u.same_username, u.same_display_name,
            u.same_avatar_url, u.same_email,
          )

    -- On a connection without faults and from consistent tables: when the browser comes back from a
    -- known provider with a code and a state that has not expired, the provider names the user, both
    -- tokens are encrypted and the statements succeed, the answer is a redirect with the cookie of a
    -- new session. With a cipher that opens what it sealed and nonces of the size that was asked
    -- for, the cookie authenticates on the tables that the callback leaves, until the session expires and
    -- if the token source of that time does not replace the access token: as the provider's account of
    -- that user, with the user name, the display name and the avatar that the provider gave and the
    -- token that the token source returns. The e-mail is the provider's for an account that was not
    -- known; a known account keeps the e-mail that it had. The tables are those of sql/schema.sql.
    pub callback-authenticate_session :
        (oauth2_callback env inputs r (healthy t) ≡ (
          ok (
              redirect "/" (
                session_cookie inputs.session_id
                  (seconds_until inputs.cookie_at (inputs.issued_at + session_lifetime))
                ∷ [])),
          healthy t₃,
        ))
        × ((account : Account) × (authenticate_session
                (record env { token_source = source })
                later
                inputs.session_id
                (healthy t₃)
              ≡ (ok account, healthy t₃))
            × (account.provider_key ≡ r.path_provider)
            × (account.provider_account_id ≡ user.id)
            × (account.username ≡ user.username)
            × (account.display_name ≡ user.display_name)
            × (account.avatar_url ≡ user.avatar_url)
            × (account.email ≡ email_after (account_row inputs r.path_provider user) t₁)
            × (account.token ≡ fresh))
    callback-authenticate_session =
        let s = session_row inputs token access refresh account_id in
        let (a, there, same, read) = get_account_session-create_session s t₂ t₃ created in
        let (p, q, u, d, v, m) = account_of_user a there same in
        let access_back =
          decrypt_of_encrypt env.library env.encryption_key good_key good_block lawful
            inputs.random_access token.access_token access access_filled access_encrypted in
        let refresh_back =
          decrypt_of_encrypt env.library env.encryption_key good_key good_block lawful
            inputs.random_refresh token.refresh_token refresh refresh_filled refresh_encrypted in
        (
          callback_succeeds,
          (
            account_of (joined a s) fresh,
            authenticate_session_unchanged (record env { token_source = source }) later
                inputs.session_id t₃ (joined a s) pr token.access_token token.refresh_token fresh
                read on_time (ap (λ k. lookup k env.providers) p ∙ known)
                (unfold decrypt_tokens in rw (access_back, refresh_back)) (rw expiry_back sourced)
                unchanged,
            p,
            q,
            u,
            d,
            v,
            m,
            refl,
          ),
        )
