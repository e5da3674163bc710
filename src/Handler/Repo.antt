-- ===== src/Handler/Repo.antt =====
-- internal/handler/repo.go: `CreateRepoFromForm`.
pub mod Laws
pub mod LicenseValues
pub mod Unlicensed
pub mod Context
mod Tests
use mkrepo.Base.{
  String, Bool, true, false, not, ◌&&◌, ◌||◌, Option, none, some, List, [], ◌∷◌, ◌==◌, is_set,
}
use mkrepo.Base.{if◌then◌else◌, Result, ok, err, refuse, ◌>>=◌, ◌>>◌}
use mkrepo.Base.Dict.{Dict, lookup, insert}
use mkrepo.Base.Split.{split}
use mkrepo.Base.Text.{has_prefix, trim_prefix}
use mkrepo.Handler.{Account, Request, form_value}
use mkrepo.Service.{CreateRepo, CreateRepoTemplate, Value, strings, private, public}

pub data FormError : Type 0 where
  invalid_form name_required invalid_visibility invalid_template : FormError

-- `r.Form.Has(key)`
abbrev has : Request → String → Bool
has r key = is_set (lookup key r.form)

-- `if s != "" { p = &s }`
abbrev pub given : String → Option String
given s = if s == "" then none else some s

abbrev name_version : List String → Result FormError (Option CreateRepoTemplate)
name_version (name ∷ version ∷ []) = ok (some (record { full_name = name }))
name_version words = err invalid_template

unfoldable pub template_of : String → Result FormError (Option CreateRepoTemplate)
template_of s = if s == "" then ok none else name_version (split s "@")

-- `len(vals) > 0 && vals[0] != ""`, with the value.
abbrev pub first_given : List String → Option String
first_given [] = none
first_given (value ∷ values) = given value

put : String → Option String → Dict String → Dict String
put key none values = values
put key (some value) values =
    if has_prefix key "license-" then insert (trim_prefix key "license-") value values else values

unfoldable pub license_values_loop : Dict String → Dict (List String) → Dict String
unfolding put
license_values_loop values [] = values
license_values_loop values ((key, vals) ∷ form) =
    license_values_loop (put key (first_given vals) values) form

abbrev wrap : Dict String → Dict Value
wrap [] = []
wrap (entry ∷ entries) = ("License", strings (entry ∷ entries)) ∷ []

unfoldable pub values_of : Request → Dict Value
unfolding license_values_loop
values_of r = if form_value r "license" == "" then [] else wrap (license_values_loop [] r.form)

-- The license is a pointer to a variable, and so is never nil.
abbrev pub request_of : Request → Account → Option CreateRepoTemplate → CreateRepo
request_of r account template = record {
  name = form_value r "name";
  namespace = form_value r "owner";
  description = given (form_value r "description");
  visibility = some (form_value r "visibility");
  sha256 = if has r "sha256" then some true else none;
  initialize = some (record {
    author = record { name = account.display_name; email = account.email };
    template = template;
    tag = if has r "tag" then some "v0.0.0" else none;
    readme = if has r "readme" then some true else none;
    gitignore = given (form_value r "gitignore");
    license = some (form_value r "license");
    values = values_of r;
  });
}

abbrev pub is_visibility : String → Bool
is_visibility s = s == private || s == public

unfoldable pub create_repo_from_form : Request → Account → Result FormError CreateRepo
unfolding template_of
create_repo_from_form r account = do
  refuse r.malformed invalid_form
  refuse (form_value r "name" == "") name_required
  refuse (not (is_visibility (form_value r "visibility"))) invalid_visibility
  template ← template_of (form_value r "template")
  ok (request_of r account template)
