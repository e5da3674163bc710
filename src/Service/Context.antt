-- ===== src/Service/Context.antt =====
-- internal/service/mkrepo.go: the values that `addFiles` gives to the templates. An `int` has 64 bits.
use mkrepo.Base.{String, ◌<>◌, Option, none, some, []}
use mkrepo.Base.Dict.{Dict, lookup}
use mkrepo.Base.Int.{ℤ, pos, atoi}
use mkrepo.Base.Text.{trim_prefix}
use mkrepo.Provider.{RemoteRepo}
use mkrepo.Service.{CreateRepo, CreateRepoInitialize, CreateRepoTemplate, Value, strings}

pub record LicenseContext : Type 0 where
  pub copyright_year : ℤ
  pub copyright_holder : String

pub record TemplateContext : Type 0 where
  pub name : String
  pub description : Option String
  pub full_name : String
  pub url : String
  pub license : LicenseContext
  pub values : Dict Value

abbrev pub or_zero : Option ℤ → ℤ
or_zero none = pos 0
or_zero (some n) = n

-- A year that is missing or no number stays zero.
abbrev pub year_of : Option String → ℤ
year_of none = pos 0
year_of (some year) = or_zero (atoi year)

abbrev pub holder_of : Option String → String
holder_of none = ""
holder_of (some holder) = holder

unfoldable pub license_of : Option Value → LicenseContext
license_of none = record { copyright_year = pos 0; copyright_holder = "" }
license_of (some (strings values)) = record {
  copyright_year = year_of (lookup "CopyrightYear" values);
  copyright_holder = holder_of (lookup "CopyrightHolder" values);
}

unfoldable pub license_context : CreateRepoInitialize → LicenseContext
unfolding license_of
license_context init = license_of (lookup "License" init.values)

-- The values themselves are only for a template.
values_for : Option CreateRepoTemplate → Dict Value → Dict Value
values_for none values = []
values_for (some template) values = values

unfoldable pub template_context : CreateRepo → CreateRepoInitialize → RemoteRepo → TemplateContext
unfolding values_for license_context
template_context repo init remote = record {
  name = repo.name;
  description = repo.description;
  full_name = trim_prefix (trim_prefix remote.html_url "https://") "http://";
  url = remote.html_url;
  license = license_context init;
  values = values_for init.template init.values;
}

-- The template `readme`. A description that is there is shown, also an empty one.
described : Option String → String
described none = ""
described (some description) = "\n" <> description <> "\n"

unfoldable pub readme : TemplateContext → String
unfolding described
readme context = "# " <> context.name <> "\n" <> described context.description
