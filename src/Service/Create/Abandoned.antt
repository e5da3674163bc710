-- ===== src/Service/Create/Abandoned.antt =====
-- When `CreateNewRepo` panics: on a nil pointer in the answer of the provider's library, and with a
-- template, since `executeTemplateRepo` dereferences the URL of a template that was never read.
use mkrepo.Base.{String, ◌≡◌, refl, sym, ap, ◌↔◌, inl, inr, true, some, ◌∷◌}
use mkrepo.Base.{ok, err, Result-cases, Option-cases, Bool-cases}
use mkrepo.Provider
use mkrepo.Base.{none, ◌∙◌, ◌⊎◌, ◌≢◌, Result}
use mkrepo.Provider.{CreateError}
use mkrepo.Service.Create.{with_url}
use mkrepo.Provider.{Client, RemoteRepo, refused, nil_pointer}
use mkrepo.Service.{CreateRepo, CreateRepoTemplate, CreateRepoInitialize}
use mkrepo.Service.{create_repo_needs_initialization}
use mkrepo.Service.Work.{World, History, panic, perform, done, fail, deref, deferring, ◌>>=◌}
use mkrepo.Service.Work.{make_temp, remove_all, create_remote_repo}
use mkrepo.Service.Git.{make_temp_dir}
use mkrepo.Service.Create.{
  MkrepoService, remote_request, create_remote_repo_by, template_files, execute_template_repo,
  add_files, initialize_repo, settle, create_new_repo,
}
use mkrepo.Service.Create.Panics.{create_new_repo-NoPanic}

refused_differs :
    (text : String) → ◌≢◌ {A = Result CreateError RemoteRepo} (err (refused text)) (err nil_pointer)
refused_differs text e = cc

-- The provider has answered, with a nil pointer: nothing else is called.
pub record IsCut (client : Client) (request : Provider.CreateRepo) (h h' : History) : Type 0 where
  pub cut : client.create_remote_repo request ≡ err nil_pointer
  pub left : h' ≡ create_remote_repo request ∷ h

module _ (world : World) where
  -- The remote repository was created and the temporary directory made, and nothing was put into
  -- either; the directory is removed again, and the repository is left.
  pub record IsAbandoned (client : Client) (request : Provider.CreateRepo) (h h' : History)
      : Type 0 where
    pub remote : RemoteRepo
    pub created : client.create_remote_repo request ≡ ok remote
    pub made :
        let created = create_remote_repo request ∷ h in
        world.succeeds created (make_temp (world.temp_name created)) ≡ true
    pub left :
        let created = create_remote_repo request ∷ h in
        let dir = world.temp_name created in h' ≡ remove_all dir ∷ make_temp dir ∷ created

  module _ (service : MkrepoService) (client : Client) (repo : CreateRepo)
      (init : CreateRepoInitialize) (visibility : String) (h h' : History)
      (shown : repo.visibility ≡ some visibility) (given : repo.initialize ≡ some init) where
    IsAbandoned-panics :
        (template : CreateRepoTemplate)
        → init.template ≡ some template
        → IsAbandoned client (remote_request repo visibility) h h'
        → create_new_repo world service client repo h ≡ (err panic, h')
    unfolding create_new_repo create_remote_repo_by settle with_url initialize_repo make_temp_dir
        add_files template_files execute_template_repo deferring perform done fail deref ◌>>=◌
        create_repo_needs_initialization
    IsAbandoned-panics template named a = rw (shown, given, a.created, named, a.made, a.left) refl

    panics-IsAbandoned :
        (template : CreateRepoTemplate)
        → init.template ≡ some template
        → create_new_repo world service client repo h ≡ (err panic, h')
        → IsAbandoned client (remote_request repo visibility) h h'
          ⊎ IsCut client (remote_request repo visibility) h h'
    unfolding create_new_repo create_remote_repo_by settle with_url initialize_repo make_temp_dir
        add_files template_files execute_template_repo deferring perform done fail deref ◌>>=◌
        create_repo_needs_initialization
    panics-IsAbandoned template named e =
        let request = remote_request repo visibility in
        let created = create_remote_repo request ∷ h in
        elim (Result-cases (client.create_remote_repo request)) [
          | inr (refused text, bad) ↦ absurd (let k = rw (shown, given, bad) at e in cc)
          | inr (nil_pointer, bad) ↦ inr (record {
            cut = bad;
            left = let k = rw (shown, given, bad) at e in ap (λ p. p.1) (sym k);
          })
          | inl (remote, good) ↦
              elim (Bool-cases (world.succeeds created (make_temp (world.temp_name created)))) [
                | inr fails ↦ absurd (let k = rw (shown, given, good, named, fails) at e in cc)
                | inl made ↦ inl (record {
                  remote = remote;
                  created = good;
                  made = made;
                  left = let k = rw (shown, given, good, named, made) at e in ap (λ p. p.1) (sym k);
                })
              ]
        ]

    IsCut-panics :
        IsCut client (remote_request repo visibility) h h'
        → create_new_repo world service client repo h ≡ (err panic, h')
    unfolding create_new_repo create_remote_repo_by deref done ◌>>=◌
    IsCut-panics a = rw (shown, a.cut, a.left) refl

    plain-IsCut :
        init.template ≡ none
        → create_new_repo world service client repo h ≡ (err panic, h')
        → IsCut client (remote_request repo visibility) h h'
    unfolding create_new_repo create_remote_repo_by deref done ◌>>=◌
    plain-IsCut plain e =
        let request = remote_request repo visibility in
        let safe =
          create_new_repo-NoPanic world service repo init client visibility shown given plain in
        elim (Result-cases (client.create_remote_repo request)) [
          | inl (remote, good) ↦
              absurd (safe (λ bad. let k = sym good ∙ bad in cc) h (ap (λ p. p.0) e))
          | inr (refused text, bad) ↦
              absurd
                (safe (λ cut. let k = sym bad ∙ cut in refused_differs text k) h (ap (λ p. p.0) e))
          | inr (nil_pointer, bad) ↦ record {
            cut = bad;
            left = let k = rw (shown, bad) at e in ap (λ p. p.1) (sym k);
          }
        ]

    -- With a visibility and an `Initialize`, `CreateNewRepo` panics exactly if a pointer of the provider's
    -- answer is nil, or a template is named, the provider has created the repository and the temporary
    -- directory was made.
    pub create_new_repo-panics_iff :
        (create_new_repo world service client repo h ≡ (err panic, h')) ↔ (
          (((template : CreateRepoTemplate) × (init.template ≡ some template))
            × IsAbandoned client (remote_request repo visibility) h h')
          ⊎ IsCut client (remote_request repo visibility) h h')
    create_new_repo-panics_iff = (
      λ e. elim (Option-cases init.template) [
        | inl plain ↦ inr (plain-IsCut plain e)
        | inr (template, named) ↦ elim (panics-IsAbandoned template named e) [
          | inl a ↦ inl ((template, named), a)
          | inr cut ↦ inr cut
        ]
      ],
      λ how. elim how [
        | inl ((template, named), a) ↦ IsAbandoned-panics template named a
        | inr cut ↦ IsCut-panics cut
      ],
    )
