-- ===== src/Provider/Github.antt =====
-- internal/provider/github.go. The calls of the go-github library are the fields of `GithubApi`;
-- a field of an answer is what the library's getter returns, "" for an absent one.
use mkrepo.Base.{String, Bool, false, Option, none, some, List, [], ◌∷◌, ◌++◌, ◌==◌}
use mkrepo.Base.{if◌then◌else◌, Result, ok, err, ◌>>=◌}
use mkrepo.Base.Int.{ℤ, format_int}
use mkrepo.Config
use mkrepo.Config.{Config}
use mkrepo.Base.{map_err}
use mkrepo.Provider.{CreateError, refused}
use mkrepo.Provider.{ProviderFeatures, User, RepoOwner, CreateRepo, RemoteRepo, Token, Endpoint}
use mkrepo.Provider.{given_url, OAuth2Config, OwnersResult, Client, Settings, private_visibility}

pub record GithubUser : Type 0 where
  pub id : ℤ
  pub login : String
  pub email : String
  pub name : String
  pub avatar_url : String

pub record Organization : Type 0 where
  pub login : String
  pub name : String
  pub avatar_url : String
  pub members_can_create_repos : Bool

pub record NewRepository : Type 0 where
  pub name : String
  pub description : Option String
  pub private : Bool
  pub visibility : String

pub record Repository : Type 0 where
  pub id : ℤ
  pub owner_login : String
  pub name : String
  pub html_url : String
  pub clone_url : String

-- `organizations_list` is the one call that is made, and so one page.
pub record GithubApi : Type 0 where
  pub users_get : Result String GithubUser
  pub organizations_list : Result String (List String)
  pub organizations_get : String → Result String Organization
  pub get_org_membership : String → Result String String
  pub repositories_create : String → NewRepository → Result String Repository

-- `if field == "" { field = value }`
abbrev default_to : String → String → String
default_to value field = if field == "" then value else field

unfoldable pub new_github_from_config : Config → Config.Provider → Settings
new_github_from_config cfg p = record {
  config = cfg;
  provider = record p {
    name = default_to "GitHub" p.name;
    url = default_to "https://github.com" p.url;
    api_url = default_to "https://api.github.com" p.api_url;
  };
}

abbrev pub github_key : Settings → String
github_key s = s.provider.key

abbrev pub github_name : Settings → String
github_name s = s.provider.name

unfoldable pub github_features : ProviderFeatures
github_features = record { oauth2_authorization_code_flow_with_pkce = false; sha256_repo = false }

-- `endpoints.GitHub` is the argument.
unfoldable pub github_oauth2_config : Endpoint → Settings → OAuth2Config
github_oauth2_config endpoint s = record {
  client_id = s.provider.client_id;
  client_secret = s.provider.client_secret;
  scopes = "repo" ∷ "read:org" ∷ [];
  endpoint = endpoint;
  redirect_url = "";
}

abbrev pub org_owner : Organization → RepoOwner
org_owner org = record {
  namespace = org.login;
  path = org.login;
  display_name = org.name;
  avatar_url = org.avatar_url;
}

abbrev pub user_owner : GithubUser → RepoOwner
user_owner user = record {
  namespace = "";
  path = user.login;
  display_name = user.name;
  avatar_url = user.avatar_url;
}

module _ (api : GithubApi) where
  unfoldable pub github_get_user : Result String User
  github_get_user = do
    res ← api.users_get
    ok (record {
      id = format_int res.id;
      username = res.login;
      email = res.email;
      display_name = res.name;
      avatar_url = res.avatar_url;
    })

  -- One round of the loop: the error that ends it, or the owners with the organization appended
  -- if the user may create repositories there.
  unfoldable pub add_org : List RepoOwner → String → Result String (List RepoOwner)
  add_org owners login = do
    org ← api.organizations_get login
    let membership = api.get_org_membership org.login
    if org.members_can_create_repos then ok (owners ++ (org_owner org ∷ [])) else do
      role ← membership
      ok (if role == "admin" then owners ++ (org_owner org ∷ []) else owners)

  unfoldable pub github_owners_loop : List RepoOwner → List String → OwnersResult
  unfolding add_org
  github_owners_loop owners [] = record { owners = owners; error = none }
  github_owners_loop owners (login ∷ orgs) = elim (add_org owners login) [
    | err e ↦ record { owners = owners; error = some e }
    | ok more ↦ github_owners_loop more orgs
  ]

  unfoldable pub github_owners : OwnersResult
  unfolding github_owners_loop
  github_owners = elim api.users_get [
    | err e ↦ record { owners = []; error = some e }
    | ok user ↦ elim api.organizations_list [
      | err e ↦ record { owners = user_owner user ∷ []; error = some e }
      | ok orgs ↦ github_owners_loop (user_owner user ∷ []) orgs
    ]
  ]

  unfoldable pub github_create_remote_repo : CreateRepo → Result CreateError RemoteRepo
  github_create_remote_repo repo = do
    r ← map_err refused (
        api.repositories_create repo.namespace (record {
          name = repo.name;
          description = repo.description;
          private = repo.visibility == private_visibility;
          visibility = repo.visibility;
        }))
    ok (record {
      id = r.id;
      namespace = r.owner_login;
      name = r.name;
      html_url = r.html_url;
      clone_url = r.clone_url;
    })

  unfoldable pub github_client : Token → Client
  unfolding github_get_user github_owners github_create_remote_repo
  github_client token = record {
    token = token;
    get_user = github_get_user;
    get_posible_repo_owners = github_owners;
    create_remote_repo = github_create_remote_repo;
  }

-- `connect` is `github.NewClient`, which may refuse its options.
unfoldable pub github_new_client :
    (String → Option String → Result String GithubApi) → Settings → Token → Result String Client
github_new_client connect gh token = do
  api ← connect token.access_token (given_url gh.provider.url)
  ok (github_client api token)
