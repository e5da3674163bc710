-- ===== src/Provider/Gitea.antt =====
-- internal/provider/gitea.go. The calls of the Gitea library are the fields of `GiteaApi`.
use mkrepo.Base.{String, ◌<>◌, Bool, true, false, Option, none, some, List, [], ◌∷◌, ◌++◌, ◌==◌}
use mkrepo.Base.{if◌then◌else◌, Result, ok, err, ◌>>=◌}
use mkrepo.Base.Int.{ℤ, format_int}
use mkrepo.Config
use mkrepo.Config.{Config}
use mkrepo.Base.{map_err, or_err}
use mkrepo.Provider.{CreateError, refused, nil_pointer}
use mkrepo.Provider.{ProviderFeatures, User, RepoOwner, CreateRepo, RemoteRepo, Token}
use mkrepo.Provider.{OAuth2Config, OwnersResult, Client, Settings, private_visibility}

pub record GiteaUser : Type 0 where
  pub id : ℤ
  pub user_name : String
  pub email : String
  pub full_name : String
  pub avatar_url : String

pub record Organization : Type 0 where
  pub name : String
  pub full_name : String
  pub avatar_url : String

pub record CreateRepoOption : Type 0 where
  pub name : String
  pub description : String
  pub private : Bool
  pub object_format_name : String

-- `owner_user_name` is that of the pointer `Owner`, if it is not nil.
pub record Repository : Type 0 where
  pub id : ℤ
  pub owner_user_name : Option String
  pub name : String
  pub html_url : String
  pub clone_url : String

-- `get_org_permissions` gives `CanCreateRepository` for an organization and a user.
pub record GiteaApi : Type 0 where
  pub get_my_user_info : Result String GiteaUser
  pub list_my_orgs : Result String (List Organization)
  pub get_org_permissions : String → String → Result String Bool
  pub create_repo : CreateRepoOption → Result String Repository
  pub create_org_repo : String → CreateRepoOption → Result String Repository

unfoldable pub new_gitea_from_config : Config → Config.Provider → Settings
new_gitea_from_config cfg p = record {
  config = cfg;
  provider = record p { name = if p.name == "" then "Gitea" else p.name };
}

abbrev pub gitea_key : Settings → String
gitea_key s = s.provider.key

abbrev pub gitea_name : Settings → String
gitea_name s = s.provider.name

unfoldable pub gitea_features : ProviderFeatures
gitea_features = record { oauth2_authorization_code_flow_with_pkce = true; sha256_repo = true }

-- The client secret is not set: the flow is that of a public client.
unfoldable pub gitea_oauth2_config : Settings → OAuth2Config
gitea_oauth2_config s = record {
  client_id = s.provider.client_id;
  client_secret = "";
  scopes = "repository" ∷ "read:user" ∷ "read:organization" ∷ [];
  endpoint = record {
    auth_url = s.provider.url <> "/login/oauth/authorize";
    token_url = s.provider.url <> "/login/oauth/access_token";
  };
  redirect_url = s.config.base_url <> "/auth/oauth2/callback/gitea";
}

abbrev text_or_empty : Option String → String
text_or_empty none = ""
text_or_empty (some text) = text

abbrev is_true : Option Bool → Bool
is_true none = false
is_true (some b) = b

unfoldable pub create_option : CreateRepo → CreateRepoOption
create_option repo = record {
  name = repo.name;
  description = text_or_empty repo.description;
  private = repo.visibility == private_visibility;
  object_format_name = if is_true repo.sha256 then "sha256" else "sha1";
}

abbrev pub org_owner : Organization → RepoOwner
org_owner org = record {
  namespace = org.name;
  path = org.name;
  display_name = org.full_name;
  avatar_url = org.avatar_url;
}

abbrev pub user_owner : User → RepoOwner
user_owner user = record {
  namespace = "";
  path = user.username;
  display_name = user.display_name;
  avatar_url = user.avatar_url;
}

module _ (api : GiteaApi) where
  unfoldable pub gitea_get_user : Result String User
  gitea_get_user = do
    res ← api.get_my_user_info
    ok (record {
      id = format_int res.id;
      username = res.user_name;
      email = res.email;
      display_name = res.full_name;
      avatar_url = res.avatar_url;
    })

  unfoldable pub gitea_owners_loop : String → List RepoOwner → List Organization → OwnersResult
  gitea_owners_loop username owners [] = record { owners = owners; error = none }
  gitea_owners_loop username owners (org ∷ orgs) =
      elim (api.get_org_permissions org.name username) [
        | err e ↦ record { owners = owners; error = some e }
        | ok can_create ↦
            gitea_owners_loop username
              (if can_create then owners ++ (org_owner org ∷ []) else owners) orgs
      ]

  unfoldable pub gitea_owners : OwnersResult
  unfolding gitea_owners_loop gitea_get_user
  gitea_owners = elim gitea_get_user [
    | err e ↦ record { owners = []; error = some e }
    | ok user ↦ elim api.list_my_orgs [
      | err e ↦ record { owners = user_owner user ∷ []; error = some e }
      | ok orgs ↦ gitea_owners_loop user.username (user_owner user ∷ []) orgs
    ]
  ]

  unfoldable pub gitea_create_remote_repo : CreateRepo → Result CreateError RemoteRepo
  unfolding create_option
  gitea_create_remote_repo repo = do
    r ← map_err refused (
        if repo.namespace == ""
        then api.create_repo (create_option repo)
        else api.create_org_repo repo.namespace (create_option repo))
    owner ← or_err r.owner_user_name nil_pointer
    ok (record {
      id = r.id;
      namespace = owner;
      name = r.name;
      html_url = r.html_url;
      clone_url = r.clone_url;
    })

  unfoldable pub gitea_client : Token → Client
  unfolding gitea_get_user gitea_owners gitea_create_remote_repo
  gitea_client token = record {
    token = token;
    get_user = gitea_get_user;
    get_posible_repo_owners = gitea_owners;
    create_remote_repo = gitea_create_remote_repo;
  }

-- The URL of the instance that the client calls.
abbrev pub gitea_url : Settings → String
gitea_url gt = if gt.provider.url == "" then "https://gitea.com" else gt.provider.url

-- `connect` is `gitea.NewClient`, which may refuse its options.
unfoldable pub gitea_new_client :
    (String → String → Result String GiteaApi) → Settings → Token → Result String Client
gitea_new_client connect gt token = do
  api ← connect (gitea_url gt) token.access_token
  ok (gitea_client api token)
