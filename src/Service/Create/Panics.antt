-- ===== src/Service/Create/Panics.antt =====
-- When `CreateNewRepo` does not panic.
use mkrepo.Base.{String, ◌≡◌, Bool, true, false, Option, none, some, Result-cases, inl, inr}
use mkrepo.Provider
use mkrepo.Base.{◌≢◌, refl, Result, ok, err}
use mkrepo.Provider.{Client, RemoteRepo, refused, nil_pointer}
use mkrepo.Service.Work.{
  Work, Failure, beside, panic, failed, remote_refused, license_not_found, no_gitignore,
}
use mkrepo.Service.Create.{marked, with_url, remote_request}
use mkrepo.Service.{CreateRepo, CreateRepoInitialize}
use mkrepo.Service.Work.{World, fail}
use mkrepo.Service.Create.{
  MkrepoService, add_files, template_files, readme_file, add_gitignore, gitignore_file,
  license_file, source_of, initialize_repo, settle, create_new_repo, create_remote_repo_by,
}
use mkrepo.Service.Work.Panics.{
  NoPanic, done-NoPanic, perform-NoPanic, deferring-NoPanic, >>=-NoPanic, deref->>=-NoPanic,
}
use mkrepo.Service.Git.Panics.{make_temp_dir-NoPanic, push_repo-NoPanic}
use mkrepo.Service.License.Panics.{add_license-NoPanic}

created-NoPanic :
    (client : Client) (request : Provider.CreateRepo)
    → client.create_remote_repo request ≢ err nil_pointer
    → NoPanic (create_remote_repo_by client request)
unfolding create_remote_repo_by
created-NoPanic client request sound h e = elim (Result-cases (client.create_remote_repo request)) [
  | inl (remote, good) ↦ let k = rw good at e in cc
  | inr (refused text, bad) ↦ let k = rw bad at e in cc
  | inr (nil_pointer, bad) ↦ sound bad
]

marked-NoPanic : (url : String) (r : Result Failure Unit) → marked url r ≡ err panic → r ≡ err panic
marked-NoPanic url (ok u) e = cc
marked-NoPanic url (err panic) e = refl
marked-NoPanic url (err failed) e = cc
marked-NoPanic url (err (remote_refused t)) e = cc
marked-NoPanic url (err (license_not_found t)) e = cc
marked-NoPanic url (err (beside u x)) e = cc
marked-NoPanic url (err (no_gitignore t)) e = cc

with_url-NoPanic : (url : String) (m : Work Unit) → NoPanic m → NoPanic (with_url url m)
unfolding with_url
with_url-NoPanic url m safe h e = safe h (marked-NoPanic url (m h).0 e)

module _ (world : World) (service : MkrepoService) where
  readme_file-NoPanic : (readme : Option Bool) → NoPanic (readme_file world service readme)
  unfolding readme_file
  readme_file-NoPanic none = done-NoPanic tt
  readme_file-NoPanic (some true) = perform-NoPanic world _
  readme_file-NoPanic (some false) = done-NoPanic tt

  source_of-NoPanic : (name : String) (o : Option String) → NoPanic (source_of world service name o)
  unfolding source_of fail
  source_of-NoPanic name none h e = cc
  source_of-NoPanic name (some content) h e = done-NoPanic content h e

  gitignore_file-NoPanic :
      (dir : String) (o : Option String) → NoPanic (gitignore_file world service dir o)
  unfolding gitignore_file add_gitignore
  gitignore_file-NoPanic dir none = done-NoPanic tt
  gitignore_file-NoPanic dir (some name) = >>=-NoPanic _ _ (source_of-NoPanic name _) λ _.
      >>=-NoPanic _ _ (perform-NoPanic world _)
        λ _. >>=-NoPanic _ _ (perform-NoPanic world _) λ _. perform-NoPanic world _

  license_file-NoPanic : (o : Option String) → NoPanic (license_file world service o)
  unfolding license_file
  license_file-NoPanic none = done-NoPanic tt
  license_file-NoPanic (some key) = add_license-NoPanic world service.licenses key

  module _ (repo : CreateRepo) (init : CreateRepoInitialize) where
    add_files-NoPanic :
        (dir : String)
        → repo.initialize ≡ some init
        → init.template ≡ none
        → NoPanic (add_files world service repo dir)
    unfolding add_files template_files
    add_files-NoPanic dir given plain = deref->>=-NoPanic repo.initialize init _ given (
        >>=-NoPanic _ _ (rw plain (done-NoPanic tt)) λ _.
          >>=-NoPanic _ _ (readme_file-NoPanic init.readme) λ _.
            >>=-NoPanic _ _ (gitignore_file-NoPanic dir init.gitignore)
              λ _. license_file-NoPanic init.license)

    initialize_repo-NoPanic :
        (remote : RemoteRepo) (token : String)
        → repo.initialize ≡ some init
        → init.template ≡ none
        → NoPanic (initialize_repo world service repo remote token)
    unfolding initialize_repo
    initialize_repo-NoPanic remote token given plain =
        >>=-NoPanic _ _ (make_temp_dir-NoPanic world) λ dir. deferring-NoPanic world _ _ (
          >>=-NoPanic _ _ (add_files-NoPanic dir given plain)
            λ _. push_repo-NoPanic world repo init dir remote.clone_url token given)

    settle-NoPanic :
        (needs : Bool) (client : Client) (remote : RemoteRepo)
        → repo.initialize ≡ some init
        → init.template ≡ none
        → NoPanic (settle world service needs client repo remote)
    unfolding settle
    settle-NoPanic true client remote given plain =
        >>=-NoPanic _ _
          (with_url-NoPanic remote.html_url
            (initialize_repo world service repo remote client.token.access_token)
            (initialize_repo-NoPanic remote _ given plain))
          λ _. done-NoPanic _
    settle-NoPanic false client remote given plain = done-NoPanic _

    -- With a visibility and an `Initialize` that names no template, and where no pointer of the
    -- provider's answer is nil, it does not.
    pub create_new_repo-NoPanic :
        (client : Client) (visibility : String)
        → repo.visibility ≡ some visibility
        → repo.initialize ≡ some init
        → init.template ≡ none
        → client.create_remote_repo (remote_request repo visibility) ≢ err nil_pointer
        → NoPanic (create_new_repo world service client repo)
    unfolding create_new_repo
    create_new_repo-NoPanic client visibility shown given plain sound =
        deref->>=-NoPanic repo.visibility visibility _ shown (
          >>=-NoPanic _ _ (created-NoPanic client _ sound)
            λ remote. settle-NoPanic _ client remote given plain)
