-- ===== src/Provider/Gitlab.antt =====
-- internal/provider/gitlab.go. The calls of the GitLab client library are the fields of `GitlabApi`.
use mkrepo.Base.{String, ◌<>◌, true, false, Option, none, some, List, [], ◌∷◌, ◌++◌, ◌==◌}
use mkrepo.Base.{if◌then◌else◌, Result, ok, err, ◌>>=◌, or_err}
use mkrepo.Base.Int.{ℤ, format_int, parse_int}
use mkrepo.Config
use mkrepo.Config.{Config}
use mkrepo.Base.{map_err, or_err}
use mkrepo.Provider.{CreateError, refused, nil_pointer}
use mkrepo.Provider.{ProviderFeatures, User, RepoOwner, CreateRepo, RemoteRepo, Token, Endpoint}
use mkrepo.Provider.{given_url, OAuth2Config, OwnersResult, Client, Settings}

pub record GitlabUser : Type 0 where
  pub id : ℤ
  pub username : String
  pub email : String
  pub name : String
  pub avatar_url : String

pub record Group : Type 0 where
  pub id : ℤ
  pub full_path : String
  pub name : String
  pub avatar_url : String

-- `CreateProjectOptions`
pub record NewProject : Type 0 where
  pub name : String
  pub description : Option String
  pub visibility : String
  pub namespace_id : Option ℤ

-- `namespace_path` is that of the pointer `Namespace`, if it is not nil.
pub record Project : Type 0 where
  pub id : ℤ
  pub namespace_path : Option String
  pub name : String
  pub web_url : String
  pub http_url_to_repo : String

-- `list_groups` is the one call that is made, with `MinAccessLevel: DeveloperPermissions`, and so one page.
pub record GitlabApi : Type 0 where
  pub current_user : Result String GitlabUser
  pub list_groups : Result String (List Group)
  pub create_project : NewProject → Result String Project

unfoldable pub new_gitlab_from_config : Config → Config.Provider → Settings
new_gitlab_from_config cfg p = record {
  config = cfg;
  provider = record p { name = if p.name == "" then "GitLab" else p.name };
}

abbrev pub gitlab_key : Settings → String
gitlab_key s = s.provider.key

abbrev pub gitlab_name : Settings → String
gitlab_name s = s.provider.name

unfoldable pub gitlab_features : ProviderFeatures
gitlab_features = record { oauth2_authorization_code_flow_with_pkce = true; sha256_repo = false }

-- `endpoints.GitLab` is the argument.
unfoldable pub gitlab_oauth2_config : Endpoint → Settings → OAuth2Config
gitlab_oauth2_config endpoint s = record {
  client_id = s.provider.client_id;
  client_secret = s.provider.client_secret;
  scopes = "api" ∷ [];
  endpoint = endpoint;
  redirect_url = s.config.base_url <> "/auth/oauth2/callback/gitlab";
}

abbrev pub group_owner : Group → RepoOwner
group_owner group = record {
  namespace = format_int group.id;
  path = group.full_path;
  display_name = group.name;
  avatar_url = group.avatar_url;
}

abbrev pub user_owner : GitlabUser → RepoOwner
user_owner user = record {
  namespace = "";
  path = user.username;
  display_name = user.name;
  avatar_url = user.avatar_url;
}

-- The `NamespaceID` of the options: unset for the user's own namespace.
unfoldable pub namespace_id : String → Result String (Option ℤ)
namespace_id namespace =
    if namespace == ""
    then ok none
    else do id ← or_err (parse_int namespace) "strconv.ParseInt"; ok (some id)

module _ (api : GitlabApi) where
  unfoldable pub gitlab_get_user : Result String User
  gitlab_get_user = do
    res ← api.current_user
    ok (record {
      id = format_int res.id;
      username = res.username;
      email = res.email;
      display_name = res.name;
      avatar_url = res.avatar_url;
    })

  -- The loop over the groups appends to what there is.
  unfoldable pub gitlab_owners_loop : List RepoOwner → List Group → List RepoOwner
  gitlab_owners_loop owners [] = owners
  gitlab_owners_loop owners (group ∷ groups) =
      gitlab_owners_loop (owners ++ (group_owner group ∷ [])) groups

  unfoldable pub gitlab_owners : OwnersResult
  unfolding gitlab_owners_loop
  gitlab_owners = elim api.current_user [
    | err e ↦ record { owners = []; error = some e }
    | ok user ↦ elim api.list_groups [
      | err e ↦ record { owners = user_owner user ∷ []; error = some e }
      | ok groups ↦ record {
        owners = gitlab_owners_loop (user_owner user ∷ []) groups;
        error = none;
      }
    ]
  ]

  unfoldable pub gitlab_create_remote_repo : CreateRepo → Result CreateError RemoteRepo
  unfolding namespace_id
  gitlab_create_remote_repo repo = do
    id ← map_err refused (namespace_id repo.namespace)
    r ← map_err refused (
        api.create_project (record {
          name = repo.name;
          description = repo.description;
          visibility = repo.visibility;
          namespace_id = id;
        }))
    path ← or_err r.namespace_path nil_pointer
    ok (record {
      id = r.id;
      namespace = path;
      name = r.name;
      html_url = r.web_url;
      clone_url = r.http_url_to_repo;
    })

  unfoldable pub gitlab_client : Token → Client
  unfolding gitlab_get_user gitlab_owners gitlab_create_remote_repo
  gitlab_client token = record {
    token = token;
    get_user = gitlab_get_user;
    get_posible_repo_owners = gitlab_owners;
    create_remote_repo = gitlab_create_remote_repo;
  }

-- `connect` is `gitlab.NewClient`, which may refuse its options.
unfoldable pub gitlab_new_client :
    (String → Option String → Result String GitlabApi) → Settings → Token → Result String Client
gitlab_new_client connect gl token = do
  api ← connect token.access_token (given_url gl.provider.url)
  ok (gitlab_client api token)
