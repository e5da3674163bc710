-- ===== src/Provider/Registry.antt =====
-- internal/provider/provider.go: the map of the providers that the configuration names, and the
-- methods of the `Provider` interface on the three types behind it.
pub mod Laws
pub mod SignIn
use mkrepo.Base.{String, ◌<>◌, Bool, true, false, Option, none, some, List, [], ◌∷◌, ◌==◌}
use mkrepo.Base.{if◌then◌else◌, Result, ok, err, ◌>>=◌}
use mkrepo.Base.Dict.{Dict, insert}
use mkrepo.Config
use mkrepo.Config.{Config, github_provider, gitlab_provider, gitea_provider}
use mkrepo.Provider.{ProviderFeatures, Token, Endpoint, OAuth2Config, Client, Settings}
use mkrepo.Provider.Github.{github_key, github_name}
use mkrepo.Provider.Github.{GithubApi, new_github_from_config, github_features}
use mkrepo.Provider.Github.{github_oauth2_config, github_new_client}
use mkrepo.Provider.Gitlab.{gitlab_key, gitlab_name}
use mkrepo.Provider.Gitlab.{GitlabApi, new_gitlab_from_config, gitlab_features}
use mkrepo.Provider.Gitlab.{gitlab_oauth2_config, gitlab_new_client}
use mkrepo.Provider.Gitea.{gitea_key, gitea_name}
use mkrepo.Provider.Gitea.{GiteaApi, new_gitea_from_config, gitea_features}
use mkrepo.Provider.Gitea.{gitea_oauth2_config, gitea_new_client}

pub data Provider : Type 0 where
  github gitlab gitea : Settings → Provider

abbrev pub Providers : Type 0
Providers = Dict Provider

abbrev pub settings : Provider → Settings
settings (github s) = s
settings (gitlab s) = s
settings (gitea s) = s

pub key : Provider → String
key (github s) = github_key s
key (gitlab s) = gitlab_key s
key (gitea s) = gitea_key s

pub name : Provider → String
name (github s) = github_name s
name (gitlab s) = gitlab_name s
name (gitea s) = gitea_name s

-- `golang.org/x/oauth2/endpoints`
pub record Endpoints : Type 0 where
  pub github : Endpoint
  pub gitlab : Endpoint

unfoldable pub features : Provider → ProviderFeatures
unfolding github_features gitlab_features gitea_features
features (github s) = github_features
features (gitlab s) = gitlab_features
features (gitea s) = gitea_features

pub oauth2_config : Endpoints → Provider → OAuth2Config
unfolding github_oauth2_config gitlab_oauth2_config gitea_oauth2_config
oauth2_config e (github s) = github_oauth2_config e.github s
oauth2_config e (gitlab s) = gitlab_oauth2_config e.gitlab s
oauth2_config e (gitea s) = gitea_oauth2_config s

-- The constructors of the three client libraries: an access token and, where it is given, the URL
-- of the instance. Each may refuse.
pub record Sdk : Type 0 where
  pub github : String → Option String → Result String GithubApi
  pub gitlab : String → Option String → Result String GitlabApi
  pub gitea : String → String → Result String GiteaApi

unfoldable pub new_client : Sdk → Provider → Token → Result String Client
unfolding github_new_client gitlab_new_client gitea_new_client
new_client sdk (github s) token = github_new_client sdk.github s token
new_client sdk (gitlab s) token = gitlab_new_client sdk.gitlab s token
new_client sdk (gitea s) token = gitea_new_client sdk.gitea s token

-- The `switch` on the type; an unknown type is only logged.
construct : Config → Config.Provider → Option Provider
construct cfg p =
    if p.type == github_provider
    then some (github (new_github_from_config cfg p))
    else if p.type == gitlab_provider
    then some (gitlab (new_gitlab_from_config cfg p))
    else if p.type == gitea_provider
    then some (gitea (new_gitea_from_config cfg p))
    else none

abbrev put : String → Option Provider → Providers → Providers
put k none providers = providers
put k (some pr) providers = insert k pr providers

new_providers_loop : Config → Providers → List Config.Provider → Providers
unfolding construct
new_providers_loop cfg providers [] = providers
new_providers_loop cfg providers (p ∷ ps) =
    new_providers_loop cfg (put p.key (construct cfg p) providers) ps

unfoldable pub new_providers_from_config : Config → Providers
unfolding new_providers_loop
new_providers_from_config cfg = new_providers_loop cfg [] cfg.providers
