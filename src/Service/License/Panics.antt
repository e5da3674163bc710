-- ===== src/Service/License/Panics.antt =====
-- `AddLicense` does not panic.
use mkrepo.Base.{String, Option, none, some, List, [], ◌∷◌}
use mkrepo.Service.Work.{World, fail}
use mkrepo.Service.License.{License, Licenses, add_license, add_one, add_all_of, found}
use mkrepo.Service.Work.Panics.{NoPanic, done-NoPanic, perform-NoPanic, >>=-NoPanic}

module _ (world : World) (licenses : Licenses) where
  found-NoPanic : (key : String) (o : Option License) → NoPanic (found world licenses key o)
  unfolding found fail
  found-NoPanic key none h e = cc
  found-NoPanic key (some license) h e = done-NoPanic license h e

  add_one-NoPanic : (key : String) → NoPanic (add_one world licenses key)
  unfolding add_one
  add_one-NoPanic key =
      >>=-NoPanic _ _ (found-NoPanic key _)
        λ license. >>=-NoPanic _ _ (perform-NoPanic world _) λ _. done-NoPanic license

  add_all_of-NoPanic : (keys : List String) → NoPanic (add_all_of world licenses keys)
  unfolding add_all_of
  add_all_of-NoPanic [] = done-NoPanic tt
  add_all_of-NoPanic (key ∷ keys) =
      >>=-NoPanic _ _ (add_one-NoPanic key) λ _. add_all_of-NoPanic keys

  pub add_license-NoPanic : (key : String) → NoPanic (add_license world licenses key)
  unfolding add_license
  add_license-NoPanic key =
      >>=-NoPanic _ _ (add_one-NoPanic key) λ license. add_all_of-NoPanic license.with_licenses
