-- ===== src/Handler/Repo/Laws.antt =====
-- Which forms give a request, and what stands in it.
use mathlib.Core.Path.{subst}
use mkrepo.Base.{Result, Option-cases}
use mkrepo.Base.{
  String, ◌<>◌, ◌≡◌, refl, ◌≢◌, ◌↔◌, ◌⊎◌, inl, inr, sym, ap, ◌∙◌, true, false, Option, none, some,
}
use mkrepo.Base.{
  List, [], ◌∷◌, ◌==◌, ok, arith, eq_iff, All, Result-cases, ok-injective, Bool-cases,
}
use mkrepo.Base.Dict.{lookup}
use mkrepo.Base.Split.{split, join, Free, join-split, Free-split, split_pair}
use mkrepo.Handler.{Account, Request, form_value}
use mkrepo.Service.{
  CreateRepo, CreateRepoTemplate, CreateRepoInitialize, create_repo_needs_initialization, private,
  public,
}
use mkrepo.Handler.Repo.{
  FormError, name_version, template_of, values_of, is_visibility, request_of, create_repo_from_form,
}

-- The text is two words with one "@" between them.
pub record IsNameVersion (s : String) : Type 0 where
  pub name : String
  pub version : String
  pub made : s ≡ name <> String.◌∷◌ "@" version
  pub name-Free : Free "@" name
  pub version-Free : Free "@" version

two_words :
    (s : String) (words : List String) (t : Option CreateRepoTemplate)
    → split s "@" ≡ words
    → name_version words ≡ ok t
    → IsNameVersion s
unfolding join
two_words s [] t h given = cc
two_words s (name ∷ []) t h given = cc
two_words s (name ∷ version ∷ []) t h given =
    let free : All (Free "@") (name ∷ version ∷ []) = rw h at (Free-split s "@") in
    record {
      name = name;
      version = version;
      made = sym (join-split s "@") ∙ ap (join "@") h;
      name-Free = free.0;
      version-Free = free.1.0;
    }
two_words s (name ∷ version ∷ more ∷ words) t h given = cc

split-IsNameVersion : (s : String) (w : IsNameVersion s) → split s "@" ≡ w.name ∷ w.version ∷ []
split-IsNameVersion s w =
    ap (λ x. split x "@") w.made ∙ split_pair w.name w.version "@" w.name-Free w.version-Free

template_of_iff :
    (s : String)
    → ((t : Option CreateRepoTemplate) × (template_of s ≡ ok t)) ↔ ((s ≡ "") ⊎ IsNameVersion s)
unfolding template_of
template_of_iff s = (
  λ h. elim (Bool-cases (s == "")) [
    | inl empty ↦ inl ((eq_iff s "").0 empty)
    | inr full ↦ inr (two_words s (split s "@") h.0 refl (rw (full, template_of) at h.1))
  ],
  λ h. elim (Bool-cases (s == "")) [
    | inl empty ↦ (none, rw (empty, template_of) refl)
    | inr full ↦ elim h [
      | inl empty ↦ (none, rw ((eq_iff s "").1 empty, template_of) refl)
      | inr words ↦ (
        some (record { full_name = words.name }),
        rw (full, split-IsNameVersion s words, template_of) refl,
      )
    ]
  ],
)

name_version-some :
    (words : List String) → ◌≢◌ {A = Result FormError _} (name_version words) (ok none)
name_version-some [] e = cc
name_version-some (name ∷ []) e = cc
name_version-some (name ∷ version ∷ []) e = let same = ok-injective {E = FormError} e in cc
name_version-some (name ∷ version ∷ more ∷ words) e = cc

-- A form has a template exactly if the text is not empty.
pub template_of-named :
    (s : String) (t : Option CreateRepoTemplate)
    → template_of s ≡ ok t
    → ((template : CreateRepoTemplate) × (t ≡ some template)) ↔ (s ≢ "")
unfolding template_of
template_of-named s t made = elim (Bool-cases (s == "")) [
  | inl empty ↦
      let same : none ≡ t = ok-injective {E = FormError} (rw (empty, template_of) at made) in
      (λ (template, named) e. cc, λ full. absurd (full ((eq_iff s "").0 empty)))
  | inr full ↦
      let words : name_version (split s "@") ≡ ok t = rw (full, template_of) at made in
      (
        λ named e. let k = (eq_iff s "").1 e in cc,
        λ e. elim (Option-cases t) [
          | inl plain ↦ absurd (name_version-some (split s "@") (words ∙ ap ok plain))
          | inr named ↦ named
        ],
      )
]

is_visibility_iff : (s : String) → (is_visibility s ≡ true) ↔ ((s ≡ private) ⊎ (s ≡ public))
is_visibility_iff s = ground (arith, eq_iff s private, eq_iff s public)

-- What a form that gives a request has passed, and the request.
pub passed :
    (r : Request) (account : Account) (repo : CreateRepo)
    → create_repo_from_form r account ≡ ok repo
    → (t : Option CreateRepoTemplate) × (r.malformed ≡ false)
      × ((form_value r "name" == "") ≡ false)
      × (is_visibility (form_value r "visibility") ≡ true)
      × (template_of (form_value r "template") ≡ ok t)
      × (repo ≡ request_of r account t)
unfolding create_repo_from_form form_value values_of
passed r account repo h = elim (Bool-cases r.malformed) [
  | inl bad ↦ cc (rw (bad, create_repo_from_form) at h)
  | inr good ↦ elim (Bool-cases (form_value r "name" == "")) [
    | inl empty ↦ cc (rw (good, empty, create_repo_from_form) at h)
    | inr full ↦ elim (Bool-cases (is_visibility (form_value r "visibility"))) [
      | inr other ↦ cc (rw (good, full, other, create_repo_from_form) at h)
      | inl known ↦ elim (Result-cases (template_of (form_value r "template"))) [
        | inr (e, refused) ↦ cc (rw (good, full, known, refused, create_repo_from_form) at h)
        | inl (t, made) ↦ (
          t,
          good,
          full,
          known,
          made,
          sym (ok-injective (rw (good, full, known, made, create_repo_from_form) at h)),
        )
      ]
    ]
  ]
]

made_request :
    (r : Request) (account : Account) (t : Option CreateRepoTemplate)
    → r.malformed ≡ false
    → (form_value r "name" == "") ≡ false
    → is_visibility (form_value r "visibility") ≡ true
    → template_of (form_value r "template") ≡ ok t
    → create_repo_from_form r account ≡ ok (request_of r account t)
unfolding create_repo_from_form form_value lookup values_of
made_request r account t good full known made = rw (good, full, known, made)

-- A form gives a request exactly if it is well-formed, has a name, has "private" or "public" for the
-- visibility, and for the template nothing or two words with one "@" between them.
pub create_repo_from_form_iff :
    (r : Request) (account : Account)
    → ((repo : CreateRepo) × (create_repo_from_form r account ≡ ok repo)) ↔ (
        (r.malformed ≡ false)
        × (form_value r "name" ≢ "")
        × ((form_value r "visibility" ≡ private) ⊎ (form_value r "visibility" ≡ public))
        × ((form_value r "template" ≡ "") ⊎ IsNameVersion (form_value r "template")))
create_repo_from_form_iff r account = (
  λ h.
      let (t, good, full, known, made, same) = passed r account h.0 h.1 in
      (
        good,
        λ empty. cc (full, (eq_iff (form_value r "name") "").1 empty),
        (is_visibility_iff (form_value r "visibility")).0 known,
        (template_of_iff (form_value r "template")).0 (t, made),
      ),
  λ h.
      let (good, named, known, words) = h in
      let (t, made) = (template_of_iff (form_value r "template")).1 words in
      let full : (form_value r "name" == "") ≡ false =
        ground (arith, eq_iff (form_value r "name") "") in
      (
        request_of r account t,
        made_request r account t good full ((is_visibility_iff (form_value r "visibility")).1 known)
            made,
      ),
)

always :
    (r : Request) (account : Account) (t : Option CreateRepoTemplate)
    → (create_repo_needs_initialization (request_of r account t) ≡ true)
      × ((init : CreateRepoInitialize) × ((request_of r account t).initialize ≡ some init)
          × (init.license ≡ some (form_value r "license")))
unfolding create_repo_needs_initialization
always r account t = (ground arith, (_, refl, refl))

-- Every request that a form gives needs initialization, and names a license: the one of the form, or
-- the empty text where the form has none.
pub create_repo_needs_initialization-create_repo_from_form :
    (r : Request) (account : Account) (repo : CreateRepo)
    → create_repo_from_form r account ≡ ok repo
    → (create_repo_needs_initialization repo ≡ true)
      × ((init : CreateRepoInitialize) × (repo.initialize ≡ some init)
          × (init.license ≡ some (form_value r "license")))
create_repo_needs_initialization-create_repo_from_form r account repo h =
    let (t, good, full, known, made, same) = passed r account repo h in
    subst
      (λ q.
        (create_repo_needs_initialization q ≡ true)
        × ((init : CreateRepoInitialize) × (q.initialize ≡ some init)
            × (init.license ≡ some (form_value r "license"))))
      (sym same) (always r account t)
