-- ===== src/Service/Create/Laws.antt =====
-- What `CreateNewRepo` has done when it succeeds, and when it cannot.
use mathlib.Core.Path.{subst}
use mkrepo.Base.{
  String, ◌≡◌, refl, sym, ap, ◌∙◌, ◌≢◌, ◌⊎◌, Bool, true, false, Option, none, some, ◌∷◌, Result, ok,
  err,
}
use mkrepo.Base.{inl, inr, ok-injective, some-injective}
use mkrepo.Base.Dict.{lookup}
use mkrepo.Provider.{Client, RemoteRepo, CreateError, refused, nil_pointer}
use mkrepo.Service.Work.{
  Failure, beside, panic, failed, remote_refused, license_not_found, no_gitignore,
}
use mkrepo.Service.Create.{marked, with_url}
use mkrepo.Service.{
  CreateRepo, CreateRepoTemplate, CreateRepoInitialize, create_repo_needs_initialization, is_true,
}
use mkrepo.Service.Work.{
  World, Work, History, done, fail, deref, deref-ok, deferring, ◌>>=◌, >>=-ok, perform-ok,
}
use mkrepo.Service.Work.{make_temp, remove_all, create_remote_repo}
use mkrepo.Service.Git.{make_temp_dir, pushed, push_repo-ok}
use mkrepo.Service.License.{add_license_missing}
use mkrepo.Service.Create.{
  MkrepoService, template_files, license_file, add_files, initialize_repo, remote_request,
}
use mkrepo.Service.Create.{
  create_remote_repo_by, answered, settle, create_new_repo, execute_template_repo,
}

done-ok : {A : Type 0} (a : A) (h h' : History) {b : A} → done a h ≡ (ok b, h') → (a ≡ b) × (h' ≡ h)
unfolding done
done-ok a h h' e = (ok-injective (ap (λ p. p.0) e), ap (λ p. p.1) (sym e))

answered-ok :
    (r : Result CreateError RemoteRepo) {remote : RemoteRepo}
    → answered r ≡ ok remote
    → r ≡ ok remote
answered-ok (ok remote) e = ap ok (ok-injective e)
answered-ok (err (refused text)) e = cc
answered-ok (err nil_pointer) e = cc

marked-ok : (url : String) (r : Result Failure Unit) → marked url r ≡ ok tt → r ≡ ok tt
marked-ok url (ok u) e = refl
marked-ok url (err panic) e = cc
marked-ok url (err failed) e = cc
marked-ok url (err (remote_refused t)) e = cc
marked-ok url (err (license_not_found t)) e = cc
marked-ok url (err (beside u x)) e = cc
marked-ok url (err (no_gitignore t)) e = cc

with_url-ok :
    (url : String) (m : Work Unit) (h h' : History)
    → with_url url m h ≡ (ok tt, h')
    → m h ≡ (ok tt, h')
unfolding with_url
with_url-ok url m h h' e = λ i. (marked-ok url (m h).0 (ap (λ p. p.0) e) i, (e i).1)

module _ (world : World) (service : MkrepoService) where
  -- A template always panics, so there is none where the files were added.
  template_files-ok :
      (dir : String) (template : Option CreateRepoTemplate) (h h' : History)
      → template_files world service dir template h ≡ (ok tt, h')
      → template ≡ none
  unfolding template_files execute_template_repo deref fail ◌>>=◌
  template_files-ok dir none h h' e = refl
  template_files-ok dir (some t) h h' e = cc

  license_file-ok :
      (license : Option String) (key : String) (h h' : History)
      → license_file world service license h ≡ (ok tt, h')
      → license ≡ some key
      → lookup key service.licenses ≢ none
  unfolding license_file
  license_file-ok none key h h' e named missing = cc
  license_file-ok (some k) key h h' e named missing =
      let same : k ≡ key = some-injective named in
      let gone : lookup k service.licenses ≡ none =
        subst (λ j. lookup j service.licenses ≡ none) (sym same) missing in
      cc (e, add_license_missing world service.licenses k h gone)

  add_files-ok :
      (repo : CreateRepo) (dir : String) (init : CreateRepoInitialize) (h h' : History)
      → repo.initialize ≡ some init
      → add_files world service repo dir h ≡ (ok tt, h')
      → (init.template ≡ none)
        × ((key : String) → init.license ≡ some key → lookup key service.licenses ≢ none)
  unfolding add_files
  add_files-ok repo dir init h h' given e =
      let (init', h₁, e₁, r₁) = >>=-ok _ _ h e in
      let (_, h₂, e₂, r₂) = >>=-ok _ _ h₁ r₁ in
      let (_, h₃, e₃, r₃) = >>=-ok _ _ h₂ r₂ in
      let (_, h₄, e₄, r₄) = >>=-ok _ _ h₃ r₃ in
      let same : init' ≡ init = some-injective (sym (deref-ok repo.initialize h h₁ e₁).0 ∙ given) in
      (
        ap (λ x. x.template) (sym same) ∙ template_files-ok dir init'.template h₁ h₂ e₂,
        λ key named. license_file-ok init'.license key h₄ h' r₄ (ap (λ x. x.license) same ∙ named),
      )

  deferring-ok :
      {A : Type 0} (dir : String) (m : Work A) (h h' : History) {a : A}
      → deferring world (remove_all dir) m h ≡ (ok a, h')
      → (h'' : History) × (m h ≡ (ok a, h'')) × (h' ≡ remove_all dir ∷ h'')
  unfolding deferring
  deferring-ok dir m h h' e = ((m h).1, λ i. ((e i).0, (m h).1), ap (λ p. p.1) (sym e))

  make_temp_dir-ok :
      (h h' : History) {dir : String}
      → make_temp_dir world h ≡ (ok dir, h')
      → h' ≡ make_temp dir ∷ h
  unfolding make_temp_dir
  make_temp_dir-ok h h' e =
      let (_, h₁, e₁, r₁) = >>=-ok _ _ h e in
      let (same, kept) = done-ok _ h₁ h' r₁ in
      kept ∙ perform-ok world _ h h₁ e₁ ∙ ap (λ d. make_temp d ∷ h) same

  -- What the initialization has done when it succeeds.
  pub record IsInitialized (repo : CreateRepo) (remote : RemoteRepo) (token : String)
      (h h' : History) : Type 0 where
    pub init : CreateRepoInitialize
    pub dir : String
    pub before_push : History
    pub given : repo.initialize ≡ some init
    pub no_template : init.template ≡ none
    pub license_known :
        (key : String) → init.license ≡ some key → lookup key service.licenses ≢ none
    pub filled : add_files world service repo dir (make_temp dir ∷ h) ≡ (ok tt, before_push)
    pub ended :
        h'
        ≡ remove_all dir ∷ pushed init (is_true repo.sha256) dir remote.clone_url token before_push

  initialize_repo-ok :
      (repo : CreateRepo) (remote : RemoteRepo) (token : String) (h h' : History)
      → initialize_repo world service repo remote token h ≡ (ok tt, h')
      → IsInitialized repo remote token h h'
  unfolding initialize_repo
  initialize_repo-ok repo remote token h h' e =
      let (dir, h₁, e₁, r₁) = >>=-ok _ _ h e in
      let (h₂, r₂, removed) = deferring-ok dir _ h₁ h' r₁ in
      let (_, h₃, e₃, r₃) = >>=-ok _ _ h₁ r₂ in
      let (init, there, trace) = push_repo-ok world repo dir remote.clone_url token h₃ h₂ r₃ in
      let (template, license) = add_files-ok repo dir init h₁ h₃ there e₃ in
      record {
        init = init;
        dir = dir;
        before_push = h₃;
        given = there;
        no_template = template;
        license_known = license;
        filled =
            subst (λ x. add_files world service repo dir x ≡ (ok tt, h₃)) (make_temp_dir-ok h h₁ e₁)
              e₃;
        ended = removed ∙ ap (λ x. remove_all dir ∷ x) trace;
      }

  settled :
      (needs : Bool) (client : Client) (repo : CreateRepo) (remote : RemoteRepo) (h h' : History)
      {url : String}
      → settle world service needs client repo remote h ≡ (ok url, h')
      → (url ≡ remote.html_url)
        × (((needs ≡ false) × (h' ≡ h))
            ⊎ ((needs ≡ true) × IsInitialized repo remote client.token.access_token h h'))
  unfolding settle
  settled true client repo remote h h' e =
      let (_, h₁, marks, r₁) = >>=-ok _ _ h e in
      let e₁ =
        with_url-ok remote.html_url
          (initialize_repo world service repo remote client.token.access_token) h h₁ marks in
      let (same, kept) = done-ok _ h₁ h' r₁ in
      (
        sym same,
        inr (
          refl,
          subst (IsInitialized repo remote client.token.access_token h) (sym kept)
              (initialize_repo-ok repo remote client.token.access_token h h₁ e₁),
        ),
      )
  settled false client repo remote h h' e =
      let (same, kept) = done-ok _ h h' e in (sym same, inl (refl, kept))

  created-ok :
      (client : Client) (repo : CreateRepo) (visibility : String) (h h' : History)
      {remote : RemoteRepo}
      → create_remote_repo_by client (remote_request repo visibility) h ≡ (ok remote, h')
      → (client.create_remote_repo (remote_request repo visibility) ≡ ok remote)
        × (h' ≡ create_remote_repo (remote_request repo visibility) ∷ h)
  unfolding create_remote_repo_by
  created-ok client repo visibility h h' e = (
    answered-ok (client.create_remote_repo (remote_request repo visibility)) (ap (λ p. p.0) e),
    ap (λ p. p.1) (sym e),
  )

  -- When `CreateNewRepo` returns without an error, the URL is that of the repository that the provider
  -- has created for the request, and that was the first call. A request that needs no initialization makes no
  -- other. Of one that does, the temporary directory was made, filled, pushed in the order of
  -- `pushRepo` and removed at the end; it names no template, and no license that is not configured.
  pub create_new_repo-ok :
      (client : Client) (repo : CreateRepo) (h h' : History) {url : String}
      → create_new_repo world service client repo h ≡ (ok url, h')
      → (visibility : String) × (remote : RemoteRepo) × (repo.visibility ≡ some visibility)
        × (client.create_remote_repo (remote_request repo visibility) ≡ ok remote)
        × (url ≡ remote.html_url)
        × (((create_repo_needs_initialization repo ≡ false)
              × (h' ≡ create_remote_repo (remote_request repo visibility) ∷ h))
            ⊎ ((create_repo_needs_initialization repo ≡ true)
                × IsInitialized repo remote client.token.access_token
                    (create_remote_repo (remote_request repo visibility) ∷ h)
                    h'))
  unfolding create_new_repo
  create_new_repo-ok client repo h h' {url} e =
      let (visibility, h₁, e₁, r₁) = >>=-ok _ _ h e in
      let (there, first) = deref-ok repo.visibility h h₁ e₁ in
      let (remote, h₂, e₂, r₂) = >>=-ok _ _ h₁ r₁ in
      let (made, second) = created-ok client repo visibility h₁ h₂ e₂ in
      let (same, rest) =
        settled (create_repo_needs_initialization repo) client repo remote h₂ h' r₂ in
      (
        visibility,
        remote,
        there,
        made,
        same,
        subst
            (λ x.
              ((create_repo_needs_initialization repo ≡ false) × (h' ≡ x))
              ⊎ ((create_repo_needs_initialization repo ≡ true)
                  × IsInitialized repo remote client.token.access_token x h'))
            (second ∙ ap (λ x. create_remote_repo (remote_request repo visibility) ∷ x) first) rest,
      )
