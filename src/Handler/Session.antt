-- ===== src/Handler/Session.antt =====
-- internal/handler/auth.go: `authenticateSession`.
pub mod Laws
pub mod Renewal
mod Tests
use mkrepo.Base.{
  ℕ, String, Option, none, some, ◌==◌, if◌then◌else◌, ltb, Result, or_err, refuse, map_err,
}
use mkrepo.Base.Dict.{lookup}
use mkrepo.Provider.{Token, User, Client}
use mkrepo.Provider.Registry.{Provider, oauth2_config, new_client}
use mkrepo.Database.{GetAccountSessionRow, get_account_session, update_account, update_session}
use mkrepo.Handler.{Account, Env}
use mkrepo.Handler.Action.{Action, pure, lift, query, ◌>>=◌, ◌>>◌}
use mkrepo.Handler.Tokens.{encrypt_tokens, decrypt_tokens}

pub data AuthError : Type 0 where
  no_session session_expired unknown_provider bad_tokens refresh_failed : AuthError
  not_encrypted no_client no_user account_not_updated session_not_updated : AuthError

-- The time at which the expiry is tested, and the random bytes for the two nonces.
pub record Inputs : Type 0 where
  pub now : ℕ
  pub random_access : ℕ → Option String
  pub random_refresh : ℕ → Option String

-- A nil time is Go's zero time.
abbrev pub expiry_of : Option ℕ → ℕ
expiry_of none = 0
expiry_of (some time) = time

-- The columns that were read before the update, with the new token.
abbrev pub account_of : GetAccountSessionRow → Token → Account
account_of row token = record {
  id = row.id;
  provider_key = row.provider;
  provider_account_id = row.provider_account_id;
  email = row.email;
  username = row.username;
  display_name = row.display_name;
  avatar_url = row.avatar_url;
  token = token;
}

module _ {Block : Type 0} (env : Env Block) (inputs : Inputs) where
  -- The access token has changed: both rows are brought up to date.
  unfoldable pub renew : GetAccountSessionRow → Provider → Token → Action AuthError Unit
  renew row pr token = do
    stored ← lift (
        map_err (λ _. not_encrypted)
          (encrypt_tokens env.library env.encryption_key inputs.random_access inputs.random_refresh
            token.access_token token.refresh_token))
    client ← lift (map_err (λ _. no_client) (new_client env.sdk pr token))
    user ← lift (map_err (λ _. no_user) client.get_user)
    query
        (update_account (record {
          id = row.id;
          username = user.username;
          email = user.email;
          display_name = user.display_name;
          avatar_url = user.avatar_url;
        }))
        account_not_updated
    query
        (update_session (record {
          id = row.session_id;
          access_token = stored.0;
          refresh_token = stored.1;
          access_token_expires_at = some token.expiry;
        }))
        session_not_updated

  unfoldable pub authenticate_session : String → Action AuthError Account
  authenticate_session session_id = do
    row ← query (get_account_session session_id) no_session
    lift (refuse (ltb row.expires_at inputs.now) session_expired)
    pr ← lift (or_err (lookup row.provider env.providers) unknown_provider)
    tokens ← lift (
        map_err (λ _. bad_tokens)
          (decrypt_tokens env.library env.encryption_key row.access_token row.refresh_token))
    let stored : Token = record {
      access_token = tokens.0;
      refresh_token = tokens.1;
      expiry = expiry_of row.access_token_expires_at;
    }
    token ← lift (or_err (env.token_source (oauth2_config env.endpoints pr) stored) refresh_failed)
    if token.access_token == tokens.0 then pure tt else renew row pr token
    pure (account_of row token)
