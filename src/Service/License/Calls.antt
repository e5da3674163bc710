-- ===== src/Service/License/Calls.antt =====
-- `AddLicense` calls nothing but the in-memory file system.
use mkrepo.Base.{String, Option, none, some, List, [], ◌∷◌}
use mkrepo.Service.Work.{World, Effect, perform, write_memory}
use mkrepo.Service.Work.Calls.{Calls, done-Calls, fail-Calls, Calls-bind}
use mkrepo.Service.License.{License, Licenses, found, add_one, add_all_of, add_license}

module _ (world : World) (licenses : Licenses) {P : Effect → Type 0}
    (writes : (file : String) → Calls P (perform world (write_memory file))) where
  found-Calls : (key : String) (o : Option License) → Calls P (found world licenses key o)
  unfolding found
  found-Calls key none = fail-Calls _
  found-Calls key (some license) = done-Calls license

  add_one-Calls : (key : String) → Calls P (add_one world licenses key)
  unfolding add_one
  add_one-Calls key =
      Calls-bind _ _ (found-Calls key _)
        λ license. Calls-bind _ _ (writes license.target_file) λ _. done-Calls license

  add_all_of-Calls : (keys : List String) → Calls P (add_all_of world licenses keys)
  unfolding add_all_of
  add_all_of-Calls [] = done-Calls tt
  add_all_of-Calls (key ∷ keys) =
      Calls-bind _ _ (add_one-Calls key) λ license. add_all_of-Calls keys

  pub add_license-Calls : (key : String) → Calls P (add_license world licenses key)
  unfolding add_license
  add_license-Calls key =
      Calls-bind _ _ (add_one-Calls key) λ license. add_all_of-Calls license.with_licenses
