-- ===== src/Config/Tests.antt =====
-- Runs of the configuration code, and its theorems at concrete data.
use mkrepo.Base.{◌≡◌, refl, some, [], ◌∷◌}
use mkrepo.Base.{ok, err, ◌==◌, if◌then◌else◌}
use mkrepo.Config.{Provider, Config, validate, Yaml, Host, empty_config}
use mkrepo.Config.{set_defaults, set_defaults_provider, load_config, duplicate_key}
use mkrepo.Config.{missing_client_id, invalid_provider}
use mkrepo.Config.Validation.{IsValid, validate_iff}

-- The provider of config.yaml, its variables expanded.
abbrev minimal : Provider
minimal = record {
  key = "github";
  name = "";
  type = "";
  client_id = "id";
  client_secret = "secret";
  url = "";
  api_url = "";
}

abbrev minimal_config : Config
minimal_config = record empty_config { providers = minimal ∷ [] }

abbrev ready : Config
ready = record empty_config {
  secret_key = "aa";
  providers = record minimal { type = "github" } ∷ [];
}

minimal_gets_type : (set_defaults_provider minimal).name ≡ "GitHub"
unfolding set_defaults_provider
minimal_gets_type = refl

twice_refused :
    validate (record ready { providers = minimal ∷ minimal ∷ [] }) ≡ err (duplicate_key "github")
unfolding validate
twice_refused = refl

no_client_id :
    validate (record ready { providers = record minimal { client_id = "" } ∷ [] })
    ≡ err (invalid_provider "github" missing_client_id)
unfolding validate
no_client_id = refl

ready_accepted : validate ready ≡ ok tt
unfolding validate
ready_accepted = refl

-- A YAML library and an environment for the tests: the document "config" stands for `minimal_config`
-- and "expanded" for `ready`.
abbrev some_yaml : Yaml
some_yaml = record {
  decode = λ text cfg. if text == "config" then some minimal_config else some ready;
  encode = λ cfg. some "encoded";
}

abbrev some_host : Host
some_host = record { read_file = λ name. some "config"; expand_env = λ text. "expanded" }

load_config_run : load_config some_yaml some_host "config.yaml" ≡ ok ready
unfolding load_config set_defaults validate
load_config_run = refl

validate_iff_example : IsValid ready
validate_iff_example = (validate_iff ready).0 ready_accepted
