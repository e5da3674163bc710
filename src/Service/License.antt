-- ===== src/Service/License.antt =====
-- internal/service/license.go: `AddLicense`, `addLicense` and the types. To write a file into the
-- in-memory file system is to open it and to execute the license's template into it.
pub mod Panics
pub mod Parse
pub mod Laws
pub mod Calls
use mkrepo.Base.{String, ◌≡◌, Option, none, some, List, [], ◌∷◌, err}
use mkrepo.Base.Dict.{Dict, lookup}
use mkrepo.Service.Work.{
  World, Work, History, perform, done, fail, ◌>>=◌, ◌>>◌, template_file, license_not_found,
}

pub record License : Type 0 where
  pub name : String
  pub file : String
  pub target_file : String
  pub with_licenses : List String

abbrev pub Licenses : Type 0
Licenses = Dict License

module _ (world : World) (licenses : Licenses) where
  found : String → Option License → Work License
  found key none = fail (license_not_found key)
  found key (some license) = done license

  add_one : String → Work License
  unfolding found
  add_one key = do
    license ← found key (lookup key licenses)
    template_file world license.target_file
    done license

  add_all_of : List String → Work Unit
  add_all_of [] = done tt
  add_all_of (key ∷ keys) = add_one key >>= λ license. add_all_of keys

  unfoldable pub add_license : String → Work Unit
  unfolding add_one add_all_of
  add_license key = add_one key >>= λ license. add_all_of license.with_licenses

  -- A license that is not configured is refused, and nothing is written.
  pub add_license_missing :
      (key : String) (h : History)
      → lookup key licenses ≡ none
      → add_license key h ≡ (err (license_not_found key), h)
  unfolding add_license add_one found fail done ◌>>=◌
  add_license_missing key h missing = rw missing
