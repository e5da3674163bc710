-- ===== src/Handler/Make/Laws.antt =====
-- What `MkrepoCreate` answers, and when it panics.

use mkrepo.Base.{String, ◌≡◌, refl, ap, ◌↔◌, ◌⊎◌, inl, inr, some, []}
use mkrepo.Base.{Option, Result, ok, err, Result-cases, Option-cases, Bool-cases, arith}
use mkrepo.Base.{◌==◌}
use mkrepo.Base.Dict.{lookup}
use mkrepo.Provider.{Client}
use mkrepo.Provider.Registry.{Provider, new_client}
use mkrepo.Service.{CreateRepo}
use mkrepo.Base.{ok-injective, ℕ, ◌≢◌}
use mkrepo.Service.Work.{World, Work, History, Failure, panic, failed, remote_refused, done}
use mkrepo.Service.Work.{license_not_found, no_gitignore, beside}
use mkrepo.Service.Work.Panics.{NoPanic, done-NoPanic}
use mkrepo.Service.Create.{MkrepoService, create_new_repo}
use mkrepo.Service.Template.{MkrepoFile, register_template}
use mkrepo.Service.Template.Panics.{register_template-NoPanic}
use mkrepo.Handler.{Account, Request, Response, Env, form_value, http_error, redirect}
use mkrepo.Handler.Repo.{create_repo_from_form}
use mkrepo.Handler.Make.{
  answer_to, answering, created, make_with, make_at, make_from, mkrepo_create,
  register_template_handler,
}

pub answer_to-NoPanic :
    {A : Type 0} (f : A → Response) (r : Result Failure A)
    → answer_to f r ≡ err panic
    → r ≡ err panic
answer_to-NoPanic f (ok a) e = cc
answer_to-NoPanic f (err panic) e = refl
answer_to-NoPanic f (err failed) e = cc
answer_to-NoPanic f (err (remote_refused t)) e = cc
answer_to-NoPanic f (err (license_not_found t)) e = cc
answer_to-NoPanic f (err (beside u x)) e = cc
answer_to-NoPanic f (err (no_gitignore t)) e = cc

answering-NoPanic :
    {A : Type 0} (f : A → Response) (m : Work A) → NoPanic m → NoPanic (answering f m)
answering-NoPanic f m safe h e = safe h (answer_to-NoPanic f (m h).0 e)

module _ {Block : Type 0} (env : Env Block) (world : World) (service : MkrepoService) where
  error_differs :
      (text url : String) (status : ℕ)
      → (status ≡ 400) ⊎ (status ≡ 500)
      → ◌≢◌ {A = Result Failure Response} (ok (http_error text status)) (ok (redirect url []))
  unfolding redirect http_error
  error_differs text url status known e =
      let same : status ≡ 302 = ap (λ x. x.status) (ok-injective {E = Failure} e) in ground arith

  -- Only a URL is answered by a redirection.
  answer_to-redirect :
      (r : Result Failure String) (url : String)
      → answer_to (λ u. redirect u []) r ≡ ok (redirect url [])
      → r ≡ ok url
  answer_to-redirect (ok u) url e =
      unfold redirect in ap ok (ap (λ x. x.location) (ok-injective {E = Failure} e))
  answer_to-redirect (err panic) url e = cc
  answer_to-redirect (err failed) url e = absurd (error_differs _ url 500 (inr refl) e)
  answer_to-redirect (err (remote_refused t)) url e = absurd (error_differs _ url 500 (inr refl) e)
  answer_to-redirect (err (license_not_found t)) url e =
      absurd (error_differs _ url 500 (inr refl) e)
  answer_to-redirect (err (beside u x)) url e = absurd (error_differs _ url 500 (inr refl) e)
  answer_to-redirect (err (no_gitignore t)) url e = absurd (error_differs _ url 500 (inr refl) e)

  -- What has to hold for a new repository.
  pub record IsMade (account : Account) (r : Request) (h h' : History) (url : String) : Type 0 where
    pub repo : CreateRepo
    pub pr : Provider
    pub client : Client
    pub formed : create_repo_from_form r account ≡ ok repo
    pub known : lookup account.provider_key env.providers ≡ some pr
    pub connected : new_client env.sdk pr account.token ≡ ok client
    pub made : create_new_repo world service client repo h ≡ (ok url, h')

  refused :
      (text url : String) (status : ℕ) (h h' : History)
      → (status ≡ 400) ⊎ (status ≡ 500)
      → done (http_error text status) h ≢ (ok (redirect url []), h')
  unfolding done
  refused text url status h h' known e = error_differs text url status known (ap (λ p. p.0) e)

  redirects-IsMade :
      (account : Account) (r : Request) (h h' : History) (url : String)
      → mkrepo_create env world service account r h ≡ (ok (redirect url []), h')
      → IsMade account r h h' url
  unfolding mkrepo_create make_from make_at make_with
  redirects-IsMade account r h h' url e = elim (Result-cases (create_repo_from_form r account)) [
    | inr (x, bad) ↦ absurd (refused _ url 400 h h' (inl refl) (rw bad at e))
    | inl (repo, formed) ↦ elim (Option-cases (lookup account.provider_key env.providers)) [
      | inl missing ↦ absurd (refused _ url 400 h h' (inl refl) (rw (formed, missing) at e))
      | inr (pr, known) ↦ elim (Result-cases (new_client env.sdk pr account.token)) [
        | inr (x, bad) ↦ absurd (refused _ url 500 h h' (inr refl) (rw (formed, known, bad) at e))
        | inl (client, connected) ↦
            let made = rw (formed, known, connected) at e in
            record {
              repo = repo;
              pr = pr;
              client = client;
              formed = formed;
              known = known;
              connected = connected;
              made = λ i. (answer_to-redirect _ url (ap (λ p. p.0) made) i, (made i).1);
            }
      ]
    ]
  ]

  -- `MkrepoCreate` redirects to a URL exactly when the form gives a request, the account's provider is
  -- configured and gives a client for the account's token, and the creation of that repository with
  -- that client returns the URL; the calls made are then those of the creation.
  pub mkrepo_create_iff :
      (account : Account) (r : Request) (h h' : History) (url : String)
      → (mkrepo_create env world service account r h ≡ (ok (redirect url []), h'))
        ↔ IsMade account r h h' url
  unfolding mkrepo_create make_from make_at make_with
  mkrepo_create_iff account r h h' url =
      (redirects-IsMade account r h h' url, λ m. rw (m.formed, m.known, m.connected, m.made) refl)

pub register_template_handler-NoPanic :
    {Schema : Type 0} (world : World) (decode : String → Result String (MkrepoFile Schema))
    (disk : History → String → Option String) (account : Account) (r : Request)
    → NoPanic (register_template_handler world decode disk account r)
unfolding register_template_handler
register_template_handler-NoPanic world decode disk account r =
    elim (Bool-cases (form_value r "url" == "")) [
      | inl no_url ↦ rw no_url (done-NoPanic _)
      | inr url ↦ elim (Bool-cases (form_value r "full_name" == "")) [
        | inl no_name ↦ rw (url, no_name) (done-NoPanic _)
        | inr name ↦
            rw (url, name)
              (answering-NoPanic (λ u. created)
                (register_template world decode disk (form_value r "url")
                  (form_value r "full_name"))
                (register_template-NoPanic world decode disk _ _))
      ]
    ]
