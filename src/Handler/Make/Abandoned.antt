-- ===== src/Handler/Make/Abandoned.antt =====
-- When `MkrepoCreate` panics, and what it leaves behind then.
use mkrepo.Base.{[], ◌≡◌, ◌≢◌, refl, ap, ◌↔◌, inl, inr, Option, some}
use mkrepo.Base.{ok, err, Result-cases, Option-cases}
use mkrepo.Base.Dict.{lookup}
use mkrepo.Provider.{Client}
use mkrepo.Provider.Registry.{Provider, new_client}
use mkrepo.Service.{CreateRepo, CreateRepoTemplate}
use mkrepo.Service.Work.{World, History, panic, done}
use mkrepo.Service.Create.{MkrepoService, remote_request, create_new_repo}
use mkrepo.Base.{◌⊎◌}
use mkrepo.Service.Create.Abandoned.{IsAbandoned, IsCut, create_new_repo-panics_iff}
use mkrepo.Handler.{Account, Request, Response, Env, form_value, redirect}
use mkrepo.Handler.Repo.{create_repo_from_form, request_of}
use mkrepo.Handler.Repo.Laws.{passed, template_of-named}
use mkrepo.Handler.Make.{make_from, make_at, make_with, mkrepo_create}
use mkrepo.Handler.Make.Laws.{answer_to-NoPanic}

module _ {Block : Type 0} (env : Env Block) (world : World) (service : MkrepoService) where
  -- The form is in order, so that the creation is called, and the creation panics: a pointer of the
  -- provider's answer is nil, or the form names a template and the repository is abandoned.
  pub record IsGivenUp (account : Account) (r : Request) (h h' : History) : Type 0 where
    pub repo : CreateRepo
    pub pr : Provider
    pub client : Client
    pub formed : create_repo_from_form r account ≡ ok repo
    pub known : lookup account.provider_key env.providers ≡ some pr
    pub connected : new_client env.sdk pr account.token ≡ ok client
    pub how :
        ((form_value r "template" ≢ "")
          × IsAbandoned world client (remote_request repo (form_value r "visibility")) h h')
        ⊎ IsCut client (remote_request repo (form_value r "visibility")) h h'

  done-panic : (response : Response) (h h' : History) → done response h ≢ (err panic, h')
  unfolding done
  done-panic response h h' e = let k = ap (λ p. p.0) e in cc

  creation_iff :
      (client : Client) (account : Account) (r : Request) (repo : CreateRepo)
      (t : Option CreateRepoTemplate) (h h' : History)
      → repo ≡ request_of r account t
      → (create_new_repo world service client repo h ≡ (err panic, h')) ↔ (
          (((template : CreateRepoTemplate) × (t ≡ some template))
            × IsAbandoned world client (remote_request repo (form_value r "visibility")) h h')
          ⊎ IsCut client (remote_request repo (form_value r "visibility")) h h')
  creation_iff client account r repo t h h' same =
      create_new_repo-panics_iff world service client repo _ (form_value r "visibility") h h'
        (ap (λ x. x.visibility) same) (ap (λ x. x.initialize) same)

  panics-IsGivenUp :
      (account : Account) (r : Request) (h h' : History)
      → mkrepo_create env world service account r h ≡ (err panic, h')
      → IsGivenUp account r h h'
  unfolding mkrepo_create make_from make_at make_with
  panics-IsGivenUp account r h h' e = elim (Result-cases (create_repo_from_form r account)) [
    | inr (x, bad) ↦ absurd (done-panic _ h h' (rw bad at e))
    | inl (repo, formed) ↦ elim (Option-cases (lookup account.provider_key env.providers)) [
      | inl missing ↦ absurd (done-panic _ h h' (rw (formed, missing) at e))
      | inr (pr, known) ↦ elim (Result-cases (new_client env.sdk pr account.token)) [
        | inr (x, bad) ↦ absurd (done-panic _ h h' (rw (formed, known, bad) at e))
        | inl (client, connected) ↦
            let panics = rw (formed, known, connected) at e in
            let (t, _, _, _, words, same) = passed r account repo formed in
            let how = (creation_iff client account r repo t h h' same).0 (λ i. (
              answer_to-NoPanic (λ url. redirect url [])
                  (create_new_repo world service client repo h).0 (ap (λ p. p.0) panics) i,
              (panics i).1,
            )) in
            record {
              repo = repo;
              pr = pr;
              client = client;
              formed = formed;
              known = known;
              connected = connected;
              how = elim how [
                | inl (template, abandoned) ↦
                    inl
                      ((template_of-named (form_value r "template") t words).0 template, abandoned)
                | inr cut ↦ inr cut
              ];
            }
      ]
    ]
  ]

  -- `MkrepoCreate` panics exactly when the form gives a request, the account's provider is configured and
  -- gives a client for the account's token, and one of two things happens. Either a pointer in the
  -- provider's answer to the creation is nil, and no other call is made. Or the form names a template,
  -- the client creates the repository and the temporary directory can be made; the directory is
  -- removed again and no other call made, so that the repository is left without any of the files
  -- that were asked for.
  pub mkrepo_create-panics_iff :
      (account : Account) (r : Request) (h h' : History)
      → (mkrepo_create env world service account r h ≡ (err panic, h')) ↔ IsGivenUp account r h h'
  unfolding mkrepo_create make_from make_at make_with
  mkrepo_create-panics_iff account r h h' = (
    panics-IsGivenUp account r h h',
    λ g.
        let (t, _, _, _, words, same) = passed r account g.repo g.formed in
        let creation = creation_iff g.client account r g.repo t h h' same in
        let panics : create_new_repo world service g.client g.repo h ≡ (err panic, h') =
          elim g.how [
            | inl (named, abandoned) ↦
                creation.1
                  (inl ((template_of-named (form_value r "template") t words).1 named, abandoned))
            | inr cut ↦ creation.1 (inr cut)
          ] in
        rw (g.formed, g.known, g.connected, panics) refl,
  )

  pub panic-IsGivenUp :
      (account : Account) (r : Request) (h : History)
      → (mkrepo_create env world service account r h).0 ≡ err panic
      → IsGivenUp account r h (mkrepo_create env world service account r h).1
  panic-IsGivenUp account r h e =
      panics-IsGivenUp account r h _ (λ i. (e i, (mkrepo_create env world service account r h).1))
