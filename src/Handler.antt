-- ===== src/Handler.antt =====
-- internal/handler: requests, answers and what the handlers share.
pub mod Action
pub mod Tokens
pub mod Session
pub mod Callback
pub mod Login
pub mod Preserves
pub mod Blind
pub mod Reaches
pub mod Shut
pub mod Integrity
pub mod Middleware
pub mod Repo
pub mod Pages
pub mod Make
pub mod Samples
mod Tests
use mkrepo.Base.{
  ℕ, String, ◌<>◌, Bool, true, false, Option, none, some, List, [], ◌∷◌, ◌++◌, ltb, Result,
}
use mkrepo.Base.Dict.{Dict, lookup}
use mkrepo.Base.Int.{ℤ, pos, negsuc}
use mkrepo.Provider.{Token, OAuth2Config}
use mkrepo.Provider.Registry.{Providers, Endpoints, Sdk}
use mkrepo.Database.Crypto.{Library}

-- `handler.Account`
pub record Account : Type 0 where
  pub id : String
  pub provider_key : String
  pub provider_account_id : String
  pub email : String
  pub username : String
  pub display_name : String
  pub avatar_url : String
  pub token : Token

-- `http.Cookie`; every cookie of the program is `SameSite=Lax`.
pub record Cookie : Type 0 where
  pub name : String
  pub value : String
  pub path : String
  pub max_age : ℤ
  pub secure : Bool
  pub http_only : Bool
  pub same_site_lax : Bool

abbrev pub session_cookie_name : String
session_cookie_name = "session"

unfoldable pub session_cookie : String → ℤ → Cookie
session_cookie value max_age = record {
  name = session_cookie_name;
  value = value;
  path = "/";
  max_age = max_age;
  secure = true;
  http_only = true;
  same_site_lax = true;
}

-- `http.Request`: `form` is what `ParseForm` gives, `malformed` that it fails.
pub record Request : Type 0 where
  pub method : String
  pub path : String
  pub uri : String
  pub cookies : Dict String
  pub form : Dict (List String)
  pub malformed : Bool
  pub path_provider : String

abbrev first : Option (List String) → String
first none = ""
first (some []) = ""
first (some (value ∷ values)) = value

-- `r.FormValue`
unfoldable pub form_value : Request → String → String
form_value r key = first (lookup key r.form)

pub record Response : Type 0 where
  pub status : ℕ
  pub location : String
  pub cookies : List Cookie
  pub body : String

-- `http.Error`
unfoldable pub http_error : String → ℕ → Response
http_error text status = record { status = status; location = ""; cookies = []; body = text }

-- `http.Redirect` with `http.StatusFound`, after the cookies that were set. The location is the URL that
-- the handler gives: what `net/http` escapes or cleans in it, and the body that it writes, are left out.
unfoldable pub redirect : String → List Cookie → Response
redirect url cookies = record { status = 302; location = url; cookies = cookies; body = "" }

-- What the handlers are built over. `exchange`, `token_source`, which is `TokenSource(ctx, token).Token()`,
-- and the answers behind `sdk` are those of the time of one request: they depend on the clock and on the
-- remote services, and so each request of Server/Traffic has an environment of its own.
pub record Env (Block : Type 0) : Type 0 where
  pub library : Library Block
  pub encryption_key : String
  pub endpoints : Endpoints
  pub sdk : Sdk
  pub providers : Providers
  pub auth_code_url : OAuth2Config → String → Option String → String
  pub exchange : OAuth2Config → String → Option String → Option Token
  pub token_source : OAuth2Config → Token → Option Token
