-- ===== src/Server/Traffic/LoginTests.antt =====
-- A login at a concrete site.
use mkrepo.Base.{◌+◌, ◌≡◌, ◌≢◌, refl, inl, some, [], ◌∷◌, ok, arith, eq_iff}
use mkrepo.Base.Dict.{lookup}
use mkrepo.Base.Int.{format_int}
use mkrepo.Base.Split.{join}
use mkrepo.Provider.Github
use mkrepo.Provider.Github.{github_client}
use mkrepo.Provider.Registry.{new_client, oauth2_config}
use mkrepo.Database.{empty_tables, upsert_account, create_session}
use mkrepo.Database.Accounts.{email_after}
use mkrepo.Database.Constraints.{IsConsistent-empty}
use mkrepo.Database.Crypto.{encrypt}
use mkrepo.Database.Db.{healthy}
use mkrepo.Handler.{Account, Request, redirect, session_cookie, form_value}
use mkrepo.Handler.Callback.{session_lifetime, seconds_until}
use mkrepo.Handler.Callback.Laws.{account_row}
use mkrepo.Handler.Samples.{
  plain-IsLawful, one_key, zeros-Fills, hub, hub_found, api, bearer, env, login_request, return,
  callback_inputs, user, known_account, session, logged_in,
}
use mkrepo.Server.{new_server, serve_mux}
use mkrepo.Server.Samples.{site, inputs, post}
use mkrepo.Server.Mux.{path_of}
use mkrepo.Server.Routes.Callback.{callback_words, IsSegment}
use mkrepo.Server.Traffic.Login.{login_works, verifier_for}

abbrev begins : Request
begins = record login_request { path = "/auth/login"; cookies = [] }

abbrev comes_back : Request
comes_back = record return { path = "/auth/oauth2/callback/github"; cookies = [] }

github-IsSegment : IsSegment "github"
github-IsSegment = record {
  one = (refl, (refl, (refl, (refl, (refl, (refl, tt))))));
  not_empty = ground (arith, eq_iff "github" "");
  not_dot = ground (arith, eq_iff "github" ".");
  not_dots = ground (arith, eq_iff "github" "..");
}

comes_back_path : comes_back.path ≡ path_of (callback_words comes_back.path_provider)
unfolding join
comes_back_path = refl

form_given : form_value begins "provider" ≡ "github"
unfolding form_value lookup
form_given = refl

provider_named : form_value begins "provider" ≢ ""
unfolding form_value lookup
provider_named = ground (arith, eq_iff "github" "")

same_form : comes_back.path_provider ≡ form_value begins "provider"
unfolding form_value lookup
same_form = refl

provider_known : lookup (form_value begins "provider") env.providers ≡ some hub
provider_known = rw form_given hub_found

state_back : form_value comes_back "state" ≡ inputs.login.state
unfolding form_value lookup
state_back = refl

error_free : form_value comes_back "error" ≡ ""
unfolding form_value lookup
error_free = refl

code_known :
    env.exchange
      (oauth2_config env.endpoints hub)
      (form_value comes_back "code")
      (verifier_for hub inputs.login.verifier)
    ≡ some bearer
unfolding form_value lookup
code_known = refl

reached : new_client env.sdk hub bearer ≡ ok (github_client api bearer)
unfolding new_client
reached = refl

user_named : (github_client api bearer).get_user ≡ ok user
unfolding github_client Github.github_get_user format_int
user_named = refl

account_made :
    upsert_account (account_row callback_inputs "github" user) empty_tables
    ≡ ok ("1", known_account)
unfolding upsert_account
account_made = refl

sealed : encrypt one_key "key" callback_inputs.random_access "at" ≡ ok "00at"
unfolding encrypt
sealed = refl

sealed_refresh : encrypt one_key "key" callback_inputs.random_refresh "rt" ≡ ok "00rt"
unfolding encrypt
sealed_refresh = refl

session_made : create_session session known_account ≡ ok (tt, logged_in)
unfolding create_session
session_made = refl

login_works_example :
    let run₁ = new_server site inputs begins (healthy empty_tables) [] in
    let run₂ = new_server site inputs comes_back run₁.db run₁.history in
    (run₁.answer
      ≡ ok (
          redirect
            (env.auth_code_url (oauth2_config env.endpoints hub) "xyz" (verifier_for hub "v"))
            []))
    × (run₂ ≡ record {
      answer = ok (redirect "/" (session_cookie "s" (seconds_until 8 (7 + session_lifetime)) ∷ []));
      db = healthy logged_in;
      history = [];
    })
    × ((account : Account) × (account.provider_key ≡ form_value begins "provider")
        × (account.provider_account_id ≡ "77")
        × (account.username ≡ "ann")
        × (account.display_name ≡ "Ann")
        × (account.avatar_url ≡ "")
        × (account.email ≡ email_after (account_row callback_inputs "github" user) empty_tables)
        × (account.token ≡ bearer)
        × (new_server site inputs post run₂.db ≡ serve_mux site inputs (some account) post run₂.db))
login_works_example =
    login_works site inputs inputs inputs begins comes_back post [] hub (λ c token. some token)
      bearer bearer (github_client api bearer) user empty_tables known_account logged_in "1" "00at"
      "00rt" (inl refl, refl) (unfold lookup in refl) provider_named provider_known refl
      (inl refl, comes_back_path) github-IsSegment (unfold lookup in refl) same_form state_back
      error_free (omega arith) code_known reached user_named account_made sealed sealed_refresh
      session_made IsConsistent-empty refl refl plain-IsLawful zeros-Fills zeros-Fills
      (unfold lookup in refl) (omega arith) refl refl
