-- ===== src/Service/Create.antt =====
-- internal/service/mkrepo.go: `CreateNewRepo`, `InitializeRepo` and `addFiles`. No call depends on
-- the values that the templates show; they are in Service/Context.
pub mod Panics
pub mod Laws
pub mod Disk
pub mod Abandoned
use mkrepo.Base.{
  String, ◌<>◌, ◌≡◌, refl, sym, ap, ◌∙◌, Bool, true, false, Option, none, some, List, [], ◌∷◌,
  Result, ok, err,
}
use mkrepo.Base.{if◌then◌else◌, Result-cases, inl, inr, Bool-cases, map_err}
use mkrepo.Provider
use mkrepo.Provider.{Client, RemoteRepo, CreateError, refused, nil_pointer}
use mkrepo.Service.Work.{beside}
use mkrepo.Service.{
  CreateRepo, CreateRepoTemplate, CreateRepoInitialize, create_repo_needs_initialization, is_true,
}
use mkrepo.Service.Gitignore.{Files, gitignore_source}
use mkrepo.Service.Work.{
  World, Work, History, Effect, Failure, perform, done, fail, deref, deref-ok, deferring, ◌>>=◌,
  ◌>>◌, >>=-ok, perform-ok,
}
use mkrepo.Service.Work.{
  make_temp, remove_all, create_remote_repo, template_file, make_dirs, create_file, copy_file,
  panic, remote_refused, no_gitignore,
}
use mkrepo.Service.Template.{Walked, execute_template_dir}
use mkrepo.Service.Work.{failed}
use mkrepo.Service.Git.{clone_repo, make_temp_dir, push_repo, pushed, push_repo-ok}
use mkrepo.Service.License.{Licenses, add_license}

-- `Template`, as far as `executeTemplateRepo` reads it.
pub record Template : Type 0 where
  pub full_name : String
  pub build_in : Bool
  pub version : String
  pub url : Option String

-- `var templateInfo Template`
abbrev pub zero_template : Template
zero_template = record { full_name = ""; build_in = false; version = ""; url = none }

-- The files of the templates: what `fs.WalkDir` visits in a directory of the built-in ones, if `fs.Sub`
-- gives it, and in a clone, which of the files parse, and `filepath.Join`.
pub record TemplateFiles : Type 0 where
  pub built_in : String → Option (List Walked)
  pub cloned : String → List Walked
  pub parses : String → Bool
  pub join : String → String → String

-- The fields of `MkrepoService` that are read.
pub record MkrepoService : Type 0 where
  pub licenses : Licenses
  pub gitignores : Files
  pub templates : TemplateFiles

-- The database of the service is never used.
abbrev pub new_service : Files → Licenses → TemplateFiles → MkrepoService
new_service gitignores licenses templates = record {
  licenses = licenses;
  gitignores = gitignores;
  templates = templates;
}

-- The call of the client.
abbrev pub answered : Result CreateError RemoteRepo → Result Failure RemoteRepo
answered (ok remote) = ok remote
answered (err (refused text)) = err (remote_refused text)
answered (err nil_pointer) = err panic

unfoldable pub create_remote_repo_by : Client → Provider.CreateRepo → Work RemoteRepo
create_remote_repo_by client request h =
    (answered (client.create_remote_repo request), create_remote_repo request ∷ h)

abbrev pub remote_request : CreateRepo → String → Provider.CreateRepo
remote_request repo visibility = record {
  namespace = repo.namespace;
  name = repo.name;
  description = repo.description;
  visibility = visibility;
  sha256 = repo.sha256;
}

-- `return remoteRepo.HtmlUrl, err`
abbrev marked : String → Result Failure Unit → Result Failure Unit
marked url (ok u) = ok u
marked url (err panic) = err panic
marked url (err e) = err (beside url e)

with_url : String → Work Unit → Work Unit
with_url url m h = let (r, h') = m h in (marked url r, h')

module _ (world : World) (service : MkrepoService) where
  execute_dir : String → List Walked → Work Unit
  execute_dir dir walk =
      execute_template_dir world service.templates.parses service.templates.join dir walk

  built_in_dir : String → Option (List Walked) → Work Unit
  unfolding execute_dir
  built_in_dir dir none = fail failed
  built_in_dir dir (some walk) = execute_dir dir walk

  execute_template : String → Template → Work Unit
  unfolding execute_dir built_in_dir
  execute_template dir info =
      if info.build_in
      then built_in_dir dir
          (service.templates.built_in (service.templates.join info.full_name info.version))
      else do
        url ← deref info.url
        template_dir ← clone_repo world url
        deferring world (remove_all template_dir)
            (execute_dir dir (service.templates.cloned template_dir))

  -- `GetTemplate` is commented out, so the template is its zero value: it is not built in, and its
  -- URL is a nil pointer.
  unfoldable pub execute_template_repo : String → Work Unit
  unfolding execute_template
  execute_template_repo dir = execute_template dir zero_template

  template_files : String → Option CreateRepoTemplate → Work Unit
  unfolding execute_template_repo
  template_files dir none = done tt
  template_files dir (some template) = execute_template_repo dir

  -- `addReadme`; what the file says is in Service/Context.
  abbrev add_readme : Work Unit
  add_readme = template_file world "README.md"

  readme_file : Option Bool → Work Unit
  readme_file readme = if is_true readme then add_readme else done tt

  source_of : String → Option String → Work String
  source_of name none = fail (no_gitignore name)
  source_of name (some content) = done content

  unfoldable pub add_gitignore : String → String → Work Unit
  unfolding source_of
  add_gitignore dir name = do
    content ← source_of name (gitignore_source service.gitignores name)
    perform world (make_dirs dir)
    perform world (create_file (dir <> "/.gitignore"))
    perform world (copy_file (dir <> "/.gitignore"))

  gitignore_file : String → Option String → Work Unit
  gitignore_file dir none = done tt
  gitignore_file dir (some name) = add_gitignore dir name

  license_file : Option String → Work Unit
  license_file none = done tt
  license_file (some key) = add_license world service.licenses key

  unfoldable pub add_files : CreateRepo → String → Work Unit
  unfolding template_files readme_file gitignore_file license_file
  add_files repo dir = do
    init ← deref repo.initialize
    template_files dir init.template
    readme_file init.readme
    gitignore_file dir init.gitignore
    license_file init.license

  unfoldable pub initialize_repo : CreateRepo → RemoteRepo → String → Work Unit
  initialize_repo repo remote token = do
    dir ← make_temp_dir world
    deferring world (remove_all dir)
        (add_files repo dir >> push_repo world repo dir remote.clone_url token)

  settle : Bool → Client → CreateRepo → RemoteRepo → Work String
  unfolding with_url
  settle true client repo remote =
      with_url remote.html_url (initialize_repo repo remote client.token.access_token)
      >> done remote.html_url
  settle false client repo remote = done remote.html_url

  -- Where the initialization fails the URL of the repository is returned too, beside the error.
  unfoldable pub create_new_repo : Client → CreateRepo → Work String
  unfolding settle
  create_new_repo client repo = do
    visibility ← deref repo.visibility
    remote ← create_remote_repo_by client (remote_request repo visibility)
    settle (create_repo_needs_initialization repo) client repo remote
