-- ===== src/Handler/Samples.antt =====
-- A configuration, a provider, a cipher, requests and tables for the tests of the handlers.
use mkrepo.Database.Constraints.{IsConsistent}
use mkrepo.Base.{inl, refl}
use mkrepo.Base.{ℕ, zero, suc, String, ◌<>◌, ◌≡◌, refl, ap, none, some, [], ◌∷◌}
use mkrepo.Base.{false, ok, err, ◌==◌, if◌then◌else◌}
use mkrepo.Base.Int.{pos}
use mkrepo.Base.Dict.{lookup, insert}
use mkrepo.Config.{Config, empty_config}
use mkrepo.Provider.{Token, User}
use mkrepo.Provider.Github
use mkrepo.Provider.Github.{GithubApi, github_client}
use mkrepo.Provider.Registry.{Provider, github, new_providers_from_config}
use mkrepo.Database.{OAuth2State, Session, Tables, empty_tables}
use mkrepo.Database.Crypto.{Gcm, Library, len}
use mkrepo.Database.Crypto.Laws.{IsLawful, Fills}
use mkrepo.Handler.{Request, Env}
use mkrepo.Handler.Session.{Inputs}
use mkrepo.Handler.Login.{LoginInputs}
use mkrepo.Handler.Callback.{CallbackInputs}
use mkrepo.Handler.Callback.Laws.{account_row, session_row}

-- A cipher that seals nothing, for the tests, and a random source of zeros.
abbrev pub plain : Gcm
plain = record { nonce_size = 2; seal = λ nonce text. text; open_sealed = λ nonce text. some text }

pub plain-IsLawful : IsLawful plain
plain-IsLawful = record { open_sealed-seal = λ nonce text size. refl }

abbrev pub one_key : Library Unit
one_key = record {
  new_cipher = λ key. if key == "key" then some tt else none;
  new_gcm = λ block. some plain;
}

abbrev pub zeros : ℕ → String
zeros zero = ""
zeros (suc n) = String.◌∷◌ "0" (zeros n)

len-zeros : (n : ℕ) → len (zeros n) ≡ n
len-zeros zero = refl
len-zeros (suc n) = ap suc (len-zeros n)

pub zeros-Fills : Fills (λ n. some (zeros n))
zeros-Fills n bytes h = cc (len-zeros n)

abbrev pub cfg : Config
cfg = record empty_config {
  base_url = "https://mkrepo.dev";
  providers =
      record {
        key = "github";
        name = "GitHub";
        type = "github";
        client_id = "id";
        client_secret = "secret";
        url = "https://github.com";
        api_url = "https://api.github.com";
      }
      ∷ [];
}

abbrev pub hub : Provider
hub = github (record {
  config = cfg;
  provider = record {
    key = "github";
    name = "GitHub";
    type = "github";
    client_id = "id";
    client_secret = "secret";
    url = "https://github.com";
    api_url = "https://api.github.com";
  };
})

pub hub_found : lookup "github" (new_providers_from_config cfg) ≡ some hub
unfolding lookup insert new_providers_from_config Github.new_github_from_config
hub_found = refl

abbrev pub api : GithubApi
api = record {
  users_get =
      ok (record { id = pos 77; login = "ann"; email = "a@x"; name = "Ann"; avatar_url = "" });
  organizations_list = ok [];
  organizations_get = λ login. err "no";
  get_org_membership = λ login. err "no";
  repositories_create = λ ns r. ok (record {
    id = pos 1;
    owner_login = "ann";
    name = r.name;
    html_url = "https://github.com/ann/" <> r.name;
    clone_url = "https://github.com/ann/" <> (r.name <> ".git");
  });
}

abbrev pub bearer : Token
bearer = record { access_token = "at"; refresh_token = "rt"; expiry = 0 }

-- The provider knows one code, and does not replace an access token.
abbrev pub env : Env Unit
env = record {
  library = one_key;
  encryption_key = "key";
  endpoints = record {
    github = record { auth_url = "a"; token_url = "t" };
    gitlab = record { auth_url = "b"; token_url = "u" };
  };
  sdk = record {
    github = λ token url. ok api;
    gitlab = λ token url. err "no";
    gitea = λ url token. err "no";
  };
  providers = new_providers_from_config cfg;
  auth_code_url = λ c state verifier. "https://github.com/authorize?state=" <> state;
  exchange = λ c code verifier. if code == "code" then some bearer else none;
  token_source = λ c token. some token;
}

abbrev pub request : Request
request = record {
  method = "GET";
  path = "/";
  uri = "/";
  cookies = ("session", "s") ∷ [];
  form = [];
  malformed = false;
  path_provider = "";
}

abbrev pub login_request : Request
login_request = record request { form = ("provider", "github" ∷ []) ∷ [] }

abbrev pub return : Request
return = record request {
  form = ("state", "xyz" ∷ []) ∷ ("code", "code" ∷ []) ∷ [];
  path_provider = "github";
}

abbrev pub login_inputs : LoginInputs
login_inputs = record { verifier = "v"; state = "xyz"; now = 5 }

abbrev pub callback_inputs : CallbackInputs
callback_inputs = record {
  now = 6;
  issued_at = 7;
  cookie_at = 8;
  account_id = "1";
  session_id = "s";
  random_access = λ n. some (zeros n);
  random_refresh = λ n. some (zeros n);
}

abbrev pub later : Inputs
later = record {
  now = 9;
  random_access = λ n. some (zeros n);
  random_refresh = λ n. some (zeros n);
}

abbrev pub row : OAuth2State
row = record { state = "xyz"; verifier = none; expires_at = 20 }

abbrev pub user : User
user = record { id = "77"; username = "ann"; email = "a@x"; display_name = "Ann"; avatar_url = "" }

abbrev pub waiting : Tables
waiting = record empty_tables { oauth2_states = row ∷ [] }

abbrev pub known_account : Tables
known_account = record empty_tables { accounts = account_row callback_inputs "github" user ∷ [] }

abbrev pub session : Session
session = session_row callback_inputs bearer "00at" "00rt" "1"

abbrev pub logged_in : Tables
logged_in = record known_account { sessions = session ∷ [] }

pub logged_in-IsConsistent : IsConsistent logged_in
logged_in-IsConsistent = record {
  unique_states = tt;
  unique_ids = (tt, tt);
  unique_accounts = (tt, tt);
  unique_sessions = (tt, tt);
  owned = (inl refl, tt);
}
