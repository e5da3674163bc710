-- ===== src/Handler/Repo/Context.antt =====
-- The values of the form, as the templates of the license find them.
use mathlib.Core.Path.{subst}
use mkrepo.Base.{String, ◌≡◌, ◌≢◌, refl, sym, ap, ◌∙◌, some, [], ◌∷◌, ok}
use mkrepo.Base.{some-injective, arith, eq_iff, ◌==◌, false}
use mkrepo.Base.Dict.{Dict, Distinct, lookup}
use mkrepo.Provider.{RemoteRepo}
use mkrepo.Service.{CreateRepo, CreateRepoInitialize}
use mkrepo.Service.Context.{
  LicenseContext, year_of, holder_of, license_of, license_context, template_context,
}
use mkrepo.Handler.{Account, Request, form_value}
use mkrepo.Handler.Repo.{create_repo_from_form, request_of, values_of, wrap, license_values_loop}
use mkrepo.Handler.Repo.Laws.{passed}
use mkrepo.Handler.Repo.LicenseValues.{given_value, lookup-license_values_loop}

-- What is read of the form's values.
abbrev read : Dict String → LicenseContext
read m = record {
  copyright_year = year_of (lookup "CopyrightYear" m);
  copyright_holder = holder_of (lookup "CopyrightHolder" m);
}

read-wrap : (m : Dict String) → license_of (lookup "License" (wrap m)) ≡ read m
unfolding license_of lookup
read-wrap [] = refl
read-wrap (entry ∷ m) = refl

-- The initialization of a request has the form's values and the request the form's name.
formed :
    (r : Request) (account : Account) (repo : CreateRepo) (init : CreateRepoInitialize)
    → create_repo_from_form r account ≡ ok repo
    → repo.initialize ≡ some init
    → (init.values ≡ values_of r) × (repo.name ≡ form_value r "name")
formed r account repo init made given =
    let (t, _, _, _, _, same) = passed r account repo made in
    let given' : (request_of r account t).initialize ≡ some init =
      subst (λ q. q.initialize ≡ some init) same given in
    (ap (λ x. x.values) (sym (some-injective given')), ap (λ q. q.name) same)

seen :
    (r : Request)
    → form_value r "license" ≢ ""
    → license_of (lookup "License" (values_of r)) ≡ read (license_values_loop [] r.form)
unfolding values_of
seen r licensed =
    let full : (form_value r "license" == "") ≡ false =
      ground (arith, eq_iff (form_value r "license") "") in
    rw full (read-wrap (license_values_loop [] r.form))

-- When a form with no key twice names a license and gives a request, the templates of its license
-- see the form's year, if it is given and a number, and the form's holder, if it is given; the
-- context's name is the form's.
pub template_context-create_repo_from_form :
    (r : Request) (account : Account) (repo : CreateRepo) (init : CreateRepoInitialize)
    (remote : RemoteRepo)
    → Distinct r.form
    → form_value r "license" ≢ ""
    → create_repo_from_form r account ≡ ok repo
    → repo.initialize ≡ some init
    → let context = template_context repo init remote in
      (context.license.copyright_year
        ≡ year_of (given_value (lookup "license-CopyrightYear" r.form)))
      × (context.license.copyright_holder
          ≡ holder_of (given_value (lookup "license-CopyrightHolder" r.form)))
      × (context.name ≡ form_value r "name")
unfolding template_context license_context
template_context-create_repo_from_form r account repo init remote distinct licensed made given =
    let (values, name) = formed r account repo init made given in
    let context : license_context init ≡ read (license_values_loop [] r.form) =
      ap (λ v. license_of (lookup "License" v)) values ∙ seen r licensed in
    (
      ap (λ c. c.copyright_year) context
          ∙ ap year_of (lookup-license_values_loop "CopyrightYear" r.form distinct),
      ap (λ c. c.copyright_holder) context
          ∙ ap holder_of (lookup-license_values_loop "CopyrightHolder" r.form distinct),
      name,
    )
