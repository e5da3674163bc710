-- ===== src/Handler/Repo/Unlicensed.antt =====
-- What `CreateNewRepo` does with the request of a form whose license is not configured.
use mkrepo.Base.{String, ◌≡◌, ◌≢◌, sym, ap, ◌∙◌, inl, inr, none, ok}
use mkrepo.Base.{some-injective}
use mkrepo.Base.Dict.{lookup}
use mkrepo.Provider.{Client}
use mkrepo.Handler.{Account, Request, form_value}
use mkrepo.Service.{CreateRepo}
use mkrepo.Service.Work.{World, History}
use mkrepo.Service.Create.{MkrepoService, create_new_repo}
use mkrepo.Service.Create.Laws.{create_new_repo-ok}
use mkrepo.Handler.Repo.{create_repo_from_form}
use mkrepo.Handler.Repo.Laws.{create_repo_needs_initialization-create_repo_from_form}

-- `CreateNewRepo` never returns without an error for the request of a form whose license is not
-- configured, and that is also so for the empty text of a form without a license.
pub create_new_repo-create_repo_from_form :
    (world : World) (service : MkrepoService) (client : Client) (r : Request) (account : Account)
    (repo : CreateRepo) (h : History)
    → create_repo_from_form r account ≡ ok repo
    → lookup (form_value r "license") service.licenses ≡ none
    → (url : String) → (create_new_repo world service client repo h).0 ≢ ok url
create_new_repo-create_repo_from_form world service client r account repo h read missing url e =
    let (needs, (init, given, license)) =
      create_repo_needs_initialization-create_repo_from_form r account repo read in
    let (visibility, remote, _, _, _, rest) =
      create_new_repo-ok world service client repo h (create_new_repo world service client repo h).1
        (λ i. (e i, (create_new_repo world service client repo h).1)) in
    elim rest [
      | inl (idle, _) ↦ cc (needs, idle)
      | inr (_, work) ↦
          let same = some-injective (sym given ∙ work.given) in
          work.license_known (form_value r "license") (ap (λ x. x.license) (sym same) ∙ license)
            missing
    ]
