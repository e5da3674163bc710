-- ===== src/Handler/Repo/Tests.antt =====
-- Runs of the form's reader, and its theorems at concrete forms.
use mkrepo.Base.{none, String, ◌<>◌, ◌≡◌, refl, ◌≢◌, ◌⊎◌, true, false, some, List, [], ◌∷◌, ok}
use mkrepo.Base.Dict.{Dict, lookup}
use mkrepo.Base.Split.{split}
use mkrepo.Handler.{Account, Request, form_value}
use mkrepo.Handler.Samples.{request, bearer, api}
use mkrepo.Base.Int.{pos}
use mkrepo.Base.{arith, eq_iff}
use mkrepo.Base.Int.{parse_int}
use mkrepo.Provider.{RemoteRepo}
use mkrepo.Service.Context.{template_context, year_of, holder_of}
use mkrepo.Handler.Repo.Context.{template_context-create_repo_from_form}
use mkrepo.Service.{CreateRepoInitialize}
use mkrepo.Provider.{Client}
use mkrepo.Provider.Github.{github_client}
use mkrepo.Service.Work.{World}
use mkrepo.Service.Create.{MkrepoService, create_new_repo}
use mkrepo.Handler.Repo.Unlicensed.{create_new_repo-create_repo_from_form}
use mkrepo.Service.{private, public}
use mkrepo.Handler.Repo.{create_repo_from_form, template_of, values_of, request_of}
use mkrepo.Handler.Repo.Laws.{create_repo_from_form_iff, IsNameVersion}
use mkrepo.Handler.Repo.LicenseValues.{given_value}

abbrev ann : Account
ann = record {
  id = "1";
  provider_key = "github";
  provider_account_id = "77";
  email = "a@x";
  username = "ann";
  display_name = "Ann";
  avatar_url = "";
  token = bearer;
}

abbrev form : Dict (List String)
form =
    ("name", "site" ∷ [])
    ∷ ("visibility", "public" ∷ [])
    ∷ ("template", "go/web@1" ∷ [])
    ∷ ("license-Year", "2026" ∷ [])
    ∷ ("license-Holder", "" ∷ [])
    ∷ []

abbrev filled : Request
filled = record request { form = form }

accepted :
    create_repo_from_form filled ann
    ≡ ok (request_of filled ann (some (record { full_name = "go/web" })))
unfolding create_repo_from_form template_of form_value lookup split values_of
accepted = refl

create_repo_from_form_iff_example :
    (filled.malformed ≡ false)
    × (form_value filled "name" ≢ "")
    × ((form_value filled "visibility" ≡ private) ⊎ (form_value filled "visibility" ≡ public))
    × ((form_value filled "template" ≡ "") ⊎ IsNameVersion (form_value filled "template"))
create_repo_from_form_iff_example = (create_repo_from_form_iff filled ann).0 (_, accepted)

abbrev idle_service : MkrepoService
idle_service = record {
  licenses = [];
  gitignores = record { read_dir = ok []; open_file = λ name. none };
  templates = record {
    built_in = λ path. none;
    cloned = λ dir. [];
    parses = λ path. true;
    join = λ dir path. dir <> "/" <> path;
  };
}

-- A provider that creates every repository.
abbrev generous : Client
generous = record (github_client api bearer) {
  create_remote_repo = λ asked. ok (record {
    id = pos 1;
    namespace = "ann";
    name = asked.name;
    html_url = "https://github.com/ann/site";
    clone_url = "https://github.com/ann/site.git";
  });
}

abbrev willing : World
willing = record { succeeds = λ h e. true; temp_name = λ h. "/tmp/mkrepo-1" }

-- A form without a template and without a license.
abbrev plain : Request
plain = record request { form = ("name", "site" ∷ []) ∷ ("visibility", "public" ∷ []) ∷ [] }

plain_accepted : create_repo_from_form plain ann ≡ ok (request_of plain ann none)
unfolding create_repo_from_form template_of form_value lookup values_of
plain_accepted = refl

create_new_repo-create_repo_from_form_example :
    (create_new_repo willing idle_service generous (request_of plain ann none) []).0
    ≢ ok "https://github.com/ann/site"
create_new_repo-create_repo_from_form_example =
    create_new_repo-create_repo_from_form willing idle_service generous plain ann
      (request_of plain ann none) [] plain_accepted (unfold lookup in refl)
      "https://github.com/ann/site"

-- A form with a license, and one year alone.
abbrev licensed : Request
licensed = record request {
  form =
      ("name", "site" ∷ [])
      ∷ ("visibility", "public" ∷ [])
      ∷ ("license", "mit" ∷ [])
      ∷ ("license-CopyrightYear", "2026" ∷ [])
      ∷ ("license-CopyrightHolder", "Ann" ∷ "Bob" ∷ [])
      ∷ [];
}

licensed_accepted : create_repo_from_form licensed ann ≡ ok (request_of licensed ann none)
unfolding create_repo_from_form template_of form_value lookup values_of
licensed_accepted = refl

mit_named : form_value licensed "license" ≢ ""
unfolding form_value lookup
mit_named = ground (arith, eq_iff "mit" "")

abbrev licensed_init : CreateRepoInitialize
licensed_init = record {
  author = record { name = "Ann"; email = "a@x" };
  template = none;
  tag = none;
  readme = none;
  gitignore = none;
  license = some (form_value licensed "license");
  values = values_of licensed;
}

licensed_given : (request_of licensed ann none).initialize ≡ some licensed_init
unfolding form_value lookup
licensed_given = refl

abbrev remote : RemoteRepo
remote = record {
  id = pos 1;
  namespace = "ann";
  name = "site";
  html_url = "https://github.com/ann/site";
  clone_url = "https://github.com/ann/site.git";
}

template_context-create_repo_from_form_example :
    let context = template_context (request_of licensed ann none) licensed_init remote in
    (context.license.copyright_year
      ≡ year_of (given_value (lookup "license-CopyrightYear" licensed.form)))
    × (context.license.copyright_holder
        ≡ holder_of (given_value (lookup "license-CopyrightHolder" licensed.form)))
    × (context.name ≡ form_value licensed "name")
template_context-create_repo_from_form_example =
    template_context-create_repo_from_form licensed ann (request_of licensed ann none) licensed_init
      remote (unfold lookup in (refl, (refl, (refl, (refl, (refl, tt)))))) mit_named
      licensed_accepted licensed_given

-- A year that is no number stays zero.
years :
    (year_of (some "2026") ≡ pos 2026) × (year_of (some "MMXXVI") ≡ pos 0) × (year_of none ≡ pos 0)
unfolding parse_int
years = (refl, refl, refl)
