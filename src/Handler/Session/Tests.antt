-- ===== src/Handler/Session/Tests.antt =====
-- The renewal of a session at concrete rows.
use mkrepo.Base.{String, Option, ◌≡◌, refl, some, ok, arith, ◌≢◌, eq_iff}
use mkrepo.Base.Int.{format_int}
use mkrepo.Provider.{Token}
use mkrepo.Provider.Registry.{new_client}
use mkrepo.Provider.Github.{github_client, github_get_user}
use mkrepo.Database.{Account, joined, get_account_session, set_profile, set_tokens}
use mkrepo.Database.Crypto.{encrypt, decrypt}
use mkrepo.Database.Db.{healthy}
use mkrepo.Handler.{Env}
use mkrepo.Handler.Session.{account_of, authenticate_session}
use mkrepo.Handler.Session.Renewal.{renewed, profile_of, tokens_of, authenticate_session-renewed}
use mkrepo.Handler.Tokens.{encrypt_tokens, decrypt_tokens}
use mkrepo.Handler.Samples.{one_key, hub, hub_found, api, env, later, user, session, logged_in}
use mkrepo.Handler.Samples.{callback_inputs}
use mkrepo.Handler.Callback.Laws.{account_row}

abbrev fresh : Token
fresh = record { access_token = "new"; refresh_token = "rt"; expiry = 90 }

-- The provider replaces every token.
abbrev renewing : Env Unit
renewing = record env { token_source = λ c token. some fresh }

abbrev account : Account
account = account_row callback_inputs "github" user

abbrev stored : String × Option String
stored = ("00new", some "00rt")

opened : decrypt_tokens one_key "key" "00at" (some "00rt") ≡ ok ("at", "rt")
unfolding decrypt_tokens decrypt
opened = refl

sealed :
    encrypt_tokens one_key "key" later.random_access later.random_refresh "new" "rt" ≡ ok stored
unfolding encrypt_tokens encrypt
sealed = refl

connected : new_client renewing.sdk hub fresh ≡ ok (github_client api fresh)
unfolding new_client
connected = refl

named : (github_client api fresh).get_user ≡ ok user
unfolding github_client github_get_user format_int
named = refl

replaced : fresh.access_token ≢ "at"
replaced same = ground (arith, eq_iff "new" "at")

authenticate_session-renewed_example :
    let t' = renewed account session user stored fresh logged_in in
    (authenticate_session renewing later "s" (healthy logged_in)
      ≡ (ok (account_of (joined account session) fresh), healthy t'))
    × (get_account_session "s" t'
        ≡ ok (
          joined
              (set_profile (profile_of account user) account)
              (set_tokens (tokens_of session stored fresh) session),
          t',
        ))
authenticate_session-renewed_example =
    authenticate_session-renewed logged_in "s" account session refl refl renewing later hub "at"
      "rt" fresh stored (github_client api fresh) user (omega arith) hub_found opened refl replaced
      sealed connected named
