-- ===== src/Provider/Tests.antt =====
-- Runs of the providers, and their theorems at concrete data.
use mkrepo.Base.{any, ◌||◌}
use mkrepo.Base.{◌<>◌, ◌⊎◌, ◌≢◌}
use mkrepo.Base.{String, ◌≡◌, refl, ◌↔◌, inl, inr, none, some, List, [], ◌∷◌}
use mkrepo.Base.{arith, eq_iff, All, ok, err, ◌==◌, if◌then◌else◌, map, only}
use mkrepo.Base.Int.{pos}
use mkrepo.Base.Dict.{lookup, insert}
use mkrepo.Config
use mkrepo.Config.{Config, empty_config}
use mkrepo.Config.Validation.{IsValid, IsUsable}
use mkrepo.Provider.{RepoOwner, given_url, nil_pointer}
use mkrepo.Provider.Gitea.{gitea_url}
use mkrepo.Provider.Registry.{github, gitea, settings}
use mkrepo.Provider.Registry.SignIn.{instance_or, sign_in_iff}
use mkrepo.Provider.Github
use mkrepo.Provider.Github.{GithubApi, github_owners, Organization}
use mkrepo.Provider.Gitlab
use mkrepo.Provider.Gitlab.{GitlabApi, Group, gitlab_owners, group_owner, namespace_id}
use mkrepo.Provider.Registry.{Provider, gitlab, key, new_providers_from_config}
use mkrepo.Provider.Registry.{Endpoints, oauth2_config}
use mkrepo.Provider.Registry.Laws.{callback_url, redirect_url_iff, type_of}
use mkrepo.Provider.Owners.{may_create, github_owners_lem}
use mkrepo.Provider.Owners.{gitlab_owners-namespace_id}

abbrev entry : Config.Provider
entry = record {
  key = "private";
  name = "";
  type = "gitlab";
  client_id = "id";
  client_secret = "secret";
  url = "https://git.example.com";
  api_url = "";
}

abbrev cfg : Config
cfg = record empty_config { secret_key = "aa"; base_url = "https://x"; providers = entry ∷ [] }

entry-IsUsable : IsUsable entry
entry-IsUsable = record {
  has_key = ground (arith, eq_iff "private" "");
  has_client_id = ground (arith, eq_iff "id" "");
  has_client_secret = ground (arith, eq_iff "secret" "");
  known_type = inr (inl refl);
}

cfg-IsValid : IsValid cfg
cfg-IsValid = record {
  has_secret = ground (arith, eq_iff "aa" "");
  has_providers = ground arith;
  distinct_keys = (tt, tt);
  usable = (entry-IsUsable, tt);
}

abbrev made : Provider
made = gitlab (record { config = cfg; provider = record entry { name = "GitLab" } })

found : lookup "private" (new_providers_from_config cfg) ≡ some made
unfolding lookup insert new_providers_from_config Gitlab.new_gitlab_from_config
found = refl

abbrev endpoints : Endpoints
endpoints = record {
  github = record { auth_url = "a"; token_url = "t" };
  gitlab = record { auth_url = "b"; token_url = "u" };
}

redirect_url_iff_example :
    ((oauth2_config endpoints made).redirect_url ≡ callback_url cfg (key made))
    ↔ (key made ≡ type_of made)
redirect_url_iff_example =
    redirect_url_iff endpoints made (ground (arith, eq_iff "gitlab" "github"))

-- The endpoints of the public instances, and a GitLab of one's own.
abbrev public_endpoints : Endpoints
public_endpoints = record {
  github = record {
    auth_url = "https://github.com/login/oauth/authorize";
    token_url = "https://github.com/login/oauth/access_token";
  };
  gitlab = record {
    auth_url = "https://gitlab.com/oauth/authorize";
    token_url = "https://gitlab.com/oauth/token";
  };
}

sign_in_iff_example :
    let s = settings made in
    (((oauth2_config public_endpoints (github s)).endpoint.auth_url
        ≡ instance_or "https://github.com" (given_url s.provider.url) <> "/login/oauth/authorize")
      ↔ ((s.provider.url ≡ "") ⊎ (s.provider.url ≡ "https://github.com")))
    × (((oauth2_config public_endpoints (gitlab s)).endpoint.auth_url
          ≡ instance_or "https://gitlab.com" (given_url s.provider.url) <> "/oauth/authorize")
        ↔ ((s.provider.url ≡ "") ⊎ (s.provider.url ≡ "https://gitlab.com")))
    × (((oauth2_config public_endpoints (gitea s)).endpoint.auth_url
          ≡ gitea_url s <> "/login/oauth/authorize")
        ↔ (s.provider.url ≢ ""))
sign_in_iff_example =
    sign_in_iff public_endpoints "https://github.com" "https://gitlab.com" (settings made) refl refl

-- A user who belongs to three organizations: any member may create in "open", and the user is an
-- admin of "own" only.
abbrev org_of : String → Organization
org_of login = record {
  login = login;
  name = login;
  avatar_url = "";
  members_can_create_repos = login == "open";
}

abbrev role_of : String → String
role_of login = if login == "own" then "admin" else "member"

abbrev ann : Github.GithubUser
ann = record { id = pos 1; login = "ann"; email = "a@x"; name = "Ann"; avatar_url = "" }

abbrev logins : List String
logins = "closed" ∷ "open" ∷ "own" ∷ []

abbrev api : GithubApi
api = record {
  users_get = ok ann;
  organizations_list = ok logins;
  organizations_get = λ login.
      if any (λ known. known == login) logins then ok (org_of login) else err "404 Not Found";
  get_org_membership = λ login.
      if login == "closed" || login == "own" then ok (role_of login) else err "404 Not Found";
  repositories_create = λ ns r. err "no";
}

owners_run :
    map (λ (o : RepoOwner). o.path) (github_owners api).owners ≡ "ann" ∷ "open" ∷ "own" ∷ []
unfolding github_owners Github.github_owners_loop Github.add_org
owners_run = refl

github_owners_lem_example : github_owners api ≡ record {
  owners =
      Github.user_owner ann
      ∷ map Github.org_owner (only (may_create api org_of role_of) (map org_of logins));
  error = none;
}
github_owners_lem_example = github_owners_lem api org_of role_of ann logins refl refl (
  record { known = refl; member = λ asked. refl },
  (
    record { known = refl; member = λ asked. cc },
    (record { known = refl; member = λ asked. refl }, tt),
  ),
)

abbrev team : Group
team = record { id = pos 42; full_path = "a/team"; name = "Team"; avatar_url = "" }

abbrev bob : Gitlab.GitlabUser
bob = record { id = pos 2; username = "bob"; email = "b@x"; name = "Bob"; avatar_url = "" }

abbrev lab : GitlabApi
lab = record { current_user = ok bob; list_groups = ok (team ∷ []); create_project = λ p. err "no" }

gitlab_owners-namespace_id_example :
    (gitlab_owners lab
      ≡ record { owners = Gitlab.user_owner bob ∷ map group_owner (team ∷ []); error = none })
    × (namespace_id (Gitlab.user_owner bob).namespace ≡ ok none)
    × All (λ g. namespace_id (group_owner g).namespace ≡ ok (some g.id)) (team ∷ [])
gitlab_owners-namespace_id_example =
    gitlab_owners-namespace_id lab bob (team ∷ []) refl refl (omega arith, tt)

-- An answer without a namespace: the read through the nil pointer panics.
abbrev without_namespace : GitlabApi
without_namespace = record lab {
  create_project = λ p. ok (record {
    id = pos 7;
    namespace_path = none;
    name = p.name;
    web_url = "";
    http_url_to_repo = "";
  });
}

nil_namespace_run :
    Gitlab.gitlab_create_remote_repo without_namespace (record {
      namespace = "";
      name = "site";
      description = none;
      visibility = "private";
      sha256 = none;
    })
    ≡ err nil_pointer
unfolding Gitlab.gitlab_create_remote_repo namespace_id
nil_namespace_run = refl
