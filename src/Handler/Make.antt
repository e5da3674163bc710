-- ===== src/Handler/Make.antt =====
-- internal/handler: `MkrepoCreate` of repo.go and `RegisterTemplate` of template.go.
pub mod Laws
pub mod Abandoned
mod Tests
use mkrepo.Base.{String, Option, none, some, [], ◌==◌, if◌then◌else◌, Result, ok, err}
use mkrepo.Base.Dict.{lookup}
use mkrepo.Provider.{Client}
use mkrepo.Provider.Registry.{Provider, new_client}
use mkrepo.Service.{CreateRepo}
use mkrepo.Service.Work.{World, Work, History, Failure, panic, done}
use mkrepo.Service.Create.{MkrepoService, create_new_repo}
use mkrepo.Service.Template.{MkrepoFile, register_template}
use mkrepo.Handler.{Account, Request, Response, Env, form_value, http_error, redirect}
use mkrepo.Handler.Pages.{internal_server_error}
use mkrepo.Handler.Repo.{FormError, create_repo_from_form}

-- What `RegisterTemplate` answers with when it has stored nothing to complain about.
abbrev pub created : Response
created = record { status = 201; location = ""; cookies = []; body = "" }

-- The answer to the result of a call of the service. A panic ends the handler without one.
abbrev pub answer_to : {A : Type 0} → (A → Response) → Result Failure A → Result Failure Response
answer_to f (ok a) = ok (f a)
answer_to f (err panic) = err panic
answer_to f (err other) = ok internal_server_error

abbrev pub answering : {A : Type 0} → (A → Response) → Work A → Work Response
answering f m h = let (r, h') = m h in (answer_to f r, h')

module _ {Block : Type 0} (env : Env Block) (world : World) (service : MkrepoService) where
  make_with : CreateRepo → Result String Client → Work Response
  make_with repo (err text) = done internal_server_error
  make_with repo (ok client) =
      answering (λ url. redirect url []) (create_new_repo world service client repo)

  make_at : Account → CreateRepo → Option Provider → Work Response
  unfolding make_with
  make_at account repo none = done (http_error "unsupported provider" 400)
  make_at account repo (some pr) = make_with repo (new_client env.sdk pr account.token)

  make_from : Account → Result FormError CreateRepo → Work Response
  unfolding make_at
  make_from account (err e) = done (http_error "invalid form" 400)
  make_from account (ok repo) = make_at account repo (lookup account.provider_key env.providers)

  unfoldable pub mkrepo_create : Account → Request → Work Response
  unfolding make_from
  mkrepo_create account r = make_from account (create_repo_from_form r account)

module _ {Schema : Type 0} (world : World)
    (decode : String → Result String (MkrepoFile Schema)) where
  unfoldable pub register_template_handler :
      (History → String → Option String) → Account → Request → Work Response
  register_template_handler disk account r =
      let url = form_value r "url" in
      let full_name = form_value r "full_name" in
      if url == ""
      then done (http_error "url is required" 400)
      else if full_name == ""
      then done (http_error "full_name is required" 400)
      else answering (λ u. created) (register_template world decode disk url full_name)
