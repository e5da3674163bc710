-- ===== src/Handler/Callback.antt =====
-- internal/handler/auth.go: `OAuth2Callback`.
pub mod Laws
pub mod Replay
use mkrepo.Base.{
  ℕ, zero, suc, ◌+◌, ◌-◌, ◌*◌, ◌/◌, String, ◌<>◌, Bool, Option, none, some, [], ◌∷◌, ◌==◌, not,
}
use mkrepo.Base.{if◌then◌else◌, ltb, Result, ok, err, or_err, refuse, map_err}
use mkrepo.Base.Dict.{lookup}
use mkrepo.Base.Int.{ℤ, pos, negsuc}
use mkrepo.Provider.{Token, User, Client}
use mkrepo.Provider.Registry.{Provider, oauth2_config, new_client}
use mkrepo.Database.{OAuth2State, get_and_delete_oauth2_state, upsert_account, create_session}
use mkrepo.Database.Crypto.{CryptoError, encrypt}
use mkrepo.Handler.{Request, Response, Env, session_cookie, form_value, http_error, redirect}
use mkrepo.Handler.Action.{Action, pure, lift, query, ◌>>=◌, ◌>>◌}
use mkrepo.Handler.Login.{second}

-- The three readings of the clock, and what is drawn at random.
pub record CallbackInputs : Type 0 where
  pub now : ℕ
  pub issued_at : ℕ
  pub cookie_at : ℕ
  pub account_id : String
  pub session_id : String
  pub random_access : ℕ → Option String
  pub random_refresh : ℕ → Option String

abbrev pub session_lifetime : ℕ
session_lifetime = 14 * 24 * 60 * 60 * second

abbrev negate : ℕ → ℤ
negate zero = pos 0
negate (suc n) = negsuc n

-- `int(time.Until(t).Seconds())`
abbrev pub seconds_until : ℕ → ℕ → ℤ
seconds_until now t = if ltb t now then negate ((now - t) / second) else pos ((t - now) / second)

-- `&token.Expiry` unless it is Go's zero time.
abbrev pub expiry_or_nil : ℕ → Option ℕ
expiry_or_nil zero = none
expiry_or_nil (suc n) = some (suc n)

abbrev pub internal_error : Response
internal_error = http_error "Internal server error" 500

abbrev pub no_user_info : Response
no_user_info = http_error "Failed to get user info" 500

module _ {Block : Type 0} (env : Env Block) (inputs : CallbackInputs) where
  unfoldable pub encrypted : (ℕ → Option String) → String → Action Response String
  encrypted random text =
      lift (map_err (λ _. internal_error) (encrypt env.library env.encryption_key random text))

  -- From the user that the provider names to the cookie of a new session.
  unfoldable pub open_session : String → Token → User → Action Response Response
  open_session provider_key token user = do
    account_id ←
        query
          (upsert_account (record {
            id = inputs.account_id;
            provider = provider_key;
            provider_account_id = user.id;
            email = user.email;
            username = user.username;
            display_name = user.display_name;
            avatar_url = user.avatar_url;
          }))
          internal_error
    access_token ← encrypted inputs.random_access token.access_token
    refresh_token ← encrypted inputs.random_refresh token.refresh_token
    let expires_at = inputs.issued_at + session_lifetime
    query
        (create_session (record {
          id = inputs.session_id;
          access_token = access_token;
          refresh_token = some refresh_token;
          access_token_expires_at = expiry_or_nil token.expiry;
          expires_at = expires_at;
          account_id = account_id;
        }))
        internal_error
    let max_age = seconds_until inputs.cookie_at expires_at
    pure (redirect "/" (session_cookie inputs.session_id max_age ∷ []))

  -- The code is exchanged for a token, and the token for the user.
  unfoldable pub identify : Request → Provider → Option String → Action Response (Token × User)
  identify r pr verifier = do
    token ← lift (
        or_err (env.exchange (oauth2_config env.endpoints pr) (form_value r "code") verifier)
          (http_error "Failed to exchange code for token" 500))
    client ← lift (map_err (λ _. no_user_info) (new_client env.sdk pr token))
    user ← lift (map_err (λ _. no_user_info) client.get_user)
    pure (token, user)

  -- The rest of the handler, once the row of the state is taken.
  unfoldable pub after_state : Request → Provider → OAuth2State → Action Response Response
  after_state r pr row = do
    lift (refuse (ltb row.expires_at inputs.now) (http_error "State is expired" 400))
    identified ← identify r pr row.verifier
    open_session r.path_provider identified.0 identified.1

  unfoldable pub oauth2_callback : Request → Action Response Response
  oauth2_callback r = do
    let message = form_value r "error"
    lift (refuse (not (message == "")) (http_error ("OAuth2 error: " <> message) 400))
    pr ← lift (or_err (lookup r.path_provider env.providers) (http_error "Unknown provider" 400))
    row ←
        query (get_and_delete_oauth2_state (form_value r "state")) (http_error "Invalid state" 400)
    after_state r pr row
