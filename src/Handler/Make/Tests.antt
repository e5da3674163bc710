-- ===== src/Handler/Make/Tests.antt =====
-- The theorems on the making of repositories, at a concrete form.
use mkrepo.Base.{◌<>◌, ◌≡◌, ◌↔◌, true, none, [], ◌∷◌, ok, err, refl}
use mkrepo.Base.Split.{split}
use mkrepo.Base.Dict.{lookup, insert}
use mkrepo.Service.{create_repo_needs_initialization}
use mkrepo.Service.Work.{World, History, panic, perform, done, fail, deref, deferring, ◌>>=◌}
use mkrepo.Service.Work.{make_temp, remove_all, create_remote_repo}
use mkrepo.Service.Git.{make_temp_dir}
use mkrepo.Provider.Registry.{new_client, new_providers_from_config}
use mkrepo.Provider.Github.{
  github_new_client, github_client, github_create_remote_repo, new_github_from_config,
}
use mkrepo.Service.Create.{
  MkrepoService, remote_request, create_new_repo, create_remote_repo_by, initialize_repo, add_files,
  execute_template_repo,
}
use mkrepo.Handler.{Account, Request, redirect, form_value}
use mkrepo.Handler.Repo.{create_repo_from_form, template_of, request_of, values_of}
use mkrepo.Handler.Samples.{request, bearer, env}
use mkrepo.Handler.Make.{mkrepo_create}
use mkrepo.Handler.Make.Abandoned.{IsGivenUp, mkrepo_create-panics_iff}
use mkrepo.Handler.Make.Laws.{IsMade, mkrepo_create_iff}

abbrev pub ann : Account
ann = record {
  id = "1";
  provider_key = "github";
  provider_account_id = "77";
  email = "a@x";
  username = "ann";
  display_name = "Ann";
  avatar_url = "";
  token = bearer;
}

abbrev pub filled : Request
filled = record request {
  form = ("name", "site" ∷ []) ∷ ("visibility", "public" ∷ []) ∷ ("license", "mit" ∷ []) ∷ [];
}

abbrev pub service : MkrepoService
service = record {
  licenses =
      ("mit", record { name = "MIT"; file = "mit"; target_file = "LICENSE"; with_licenses = [] })
      ∷ [];
  gitignores = record { read_dir = ok []; open_file = λ name. none };
  templates = record {
    built_in = λ path. none;
    cloned = λ dir. [];
    parses = λ path. true;
    join = λ dir path. dir <> "/" <> path;
  };
}

abbrev pub willing : World
willing = record { succeeds = λ h e. true; temp_name = λ h. "/tmp/mkrepo-1" }

abbrev calls : History
calls = (mkrepo_create env willing service ann filled []).1

mkrepo_create_iff_example :
    (mkrepo_create env willing service ann filled []
      ≡ (ok (redirect "https://github.com/ann/site" []), calls))
    ↔ IsMade env willing service ann filled [] calls "https://github.com/ann/site"
mkrepo_create_iff_example =
    mkrepo_create_iff env willing service ann filled [] calls "https://github.com/ann/site"

-- The same form with a template.
abbrev templated : Request
templated = record filled {
  form = ("name", "site" ∷ []) ∷ ("visibility", "public" ∷ []) ∷ ("template", "go@v1" ∷ []) ∷ [];
}

abbrev templated_calls : History
templated_calls =
    remove_all "/tmp/mkrepo-1"
    ∷ make_temp "/tmp/mkrepo-1"
    ∷ create_remote_repo (remote_request (request_of templated ann none) "public")
    ∷ []

templated_run : mkrepo_create env willing service ann templated [] ≡ (err panic, templated_calls)
unfolding mkrepo_create create_repo_from_form template_of form_value split lookup values_of
    new_providers_from_config new_client github_new_client github_client insert
    new_github_from_config github_create_remote_repo create_new_repo create_remote_repo_by
    initialize_repo add_files execute_template_repo make_temp_dir create_repo_needs_initialization
    perform done fail deref deferring ◌>>=◌
templated_run = refl

mkrepo_create-panics_iff_example :
    (mkrepo_create env willing service ann templated [] ≡ (err panic, templated_calls))
    ↔ IsGivenUp env willing service ann templated [] templated_calls
mkrepo_create-panics_iff_example =
    mkrepo_create-panics_iff env willing service ann templated [] templated_calls
