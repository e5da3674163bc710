-- ===== src/Provider.antt =====
-- internal/provider/provider.go: what the three providers have in common. `Client` is the Go
-- interface, with the error of a call as the text that the provider's library returned.
pub mod Github
pub mod Gitlab
pub mod Gitea
pub mod Registry
pub mod Owners
mod Tests
use mkrepo.Base.{ℕ, String, Bool, Option, none, some, List, Result, ◌==◌, if◌then◌else◌}
use mkrepo.Base.Int.{ℤ}
use mkrepo.Config
use mkrepo.Config.{Config}

abbrev pub private_visibility : String
private_visibility = "private"

abbrev pub public_visibility : String
public_visibility = "public"

pub record ProviderFeatures : Type 0 where
  pub oauth2_authorization_code_flow_with_pkce : Bool
  pub sha256_repo : Bool

pub record User : Type 0 where
  pub id : String
  pub username : String
  pub email : String
  pub display_name : String
  pub avatar_url : String

pub record RepoOwner : Type 0 where
  pub namespace : String
  pub path : String
  pub display_name : String
  pub avatar_url : String

pub record CreateRepo : Type 0 where
  pub namespace : String
  pub name : String
  pub description : Option String
  pub visibility : String
  pub sha256 : Option Bool

pub record RemoteRepo : Type 0 where
  pub id : ℤ
  pub namespace : String
  pub name : String
  pub html_url : String
  pub clone_url : String

-- `oauth2.Token`; a time is a number that counts from Go's zero time.
pub record Token : Type 0 where
  pub access_token : String
  pub refresh_token : String
  pub expiry : ℕ

pub record Endpoint : Type 0 where
  pub auth_url : String
  pub token_url : String

-- `oauth2.Config`
pub record OAuth2Config : Type 0 where
  pub client_id : String
  pub client_secret : String
  pub scopes : List String
  pub endpoint : Endpoint
  pub redirect_url : String

-- The owners that were found, and the error that ended the search.
pub record OwnersResult : Type 0 where
  pub owners : List RepoOwner
  pub error : Option String

-- What ends the creation of a repository early: an error, or a nil pointer in the answer of the
-- provider's library, which panics.
pub data CreateError : Type 0 where
  refused : String → CreateError
  nil_pointer : CreateError

pub record Client : Type 0 where
  pub token : Token
  pub get_user : Result String User
  pub get_posible_repo_owners : OwnersResult
  pub create_remote_repo : CreateRepo → Result CreateError RemoteRepo

-- The two fields of `GitHub`, `GitLab` and `Gitea`.
pub record Settings : Type 0 where
  pub config : Config
  pub provider : Config.Provider

-- A URL that is empty is not passed on to the client library.
abbrev pub given_url : String → Option String
given_url url = if url == "" then none else some url
