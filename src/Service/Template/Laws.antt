-- ===== src/Service/Template/Laws.antt =====
-- What the registration of a template does on the disk, and when templates are prepared.
use mkrepo.Base.{String, ◌<>◌, ◌≡◌, refl, ◌↔◌, ◌⊎◌, inl, inr, true, false}
use mkrepo.Base.{Option, none, some, ◌∷◌, Result, ok, err, or_err}
use mkrepo.Base.{Bool-cases, Result-cases, some-injective}
use mkrepo.Service.Work.{World, History, failed, perform, done, deferring, ◌>>=◌}
use mkrepo.Service.Work.{make_temp, remove_all, clone}
use mkrepo.Service.Git.{clone_repo, make_temp_dir}
use mkrepo.Service.Template.{MkrepoFile}
use mkrepo.Service.Template.{checked, register_template}

module _ {Schema : Type 0} (world : World) (decode : String → Result String (MkrepoFile Schema))
    (disk : History → String → Option String) where
  -- The directory and the calls of a registration whose directory was made.
  abbrev pub dir_of : History → String
  dir_of h = world.temp_name h

  abbrev pub made : History → History
  made h = make_temp (dir_of h) ∷ h

  abbrev pub cloned_into : String → History → History
  cloned_into url h = clone url (dir_of h) ∷ made h

  -- The clone has an mkrepo.yaml that can be decoded.
  abbrev pub HasMkrepoFile : String → History → Type 0
  HasMkrepoFile url h =
      (content : String) × (mkrepo : MkrepoFile Schema) × (disk (cloned_into url h)
          (dir_of h <> "/mkrepo.yaml")
        ≡ some content)
      × (decode content ≡ ok mkrepo)

  checked_iff :
      (opened : Option String)
      → (checked world decode (or_err opened failed) ≡ ok tt) ↔ (
          (content : String) × (mkrepo : MkrepoFile Schema) × (opened ≡ some content)
          × (decode content ≡ ok mkrepo))
  unfolding checked
  checked_iff none = (λ h. cc, λ (content, mkrepo, there, good). cc)
  checked_iff (some content) = elim (Result-cases (decode content)) [
    | inl (mkrepo, good) ↦ (λ h. (content, mkrepo, refl, good), λ k. rw good refl)
    | inr (text, bad) ↦ (
      λ h. let k = rw bad at h in cc,
      λ (c, mkrepo, there, good).
          let same : content ≡ c = some-injective there in cc (bad, good, same),
    )
  ]

  -- A registration either cannot make its temporary directory, and fails after that one call; or it
  -- makes it, clones into it and removes it at the end, whatever comes between. In the second case it
  -- succeeds exactly when the clone does and the clone has an mkrepo.yaml that can be decoded.
  pub register_template_lem :
      (url full_name : String) (h : History)
      → let answer = register_template world decode disk url full_name h in
        ((world.succeeds h (make_temp (dir_of h)) ≡ false) × (answer ≡ (err failed, made h)))
        ⊎ ((world.succeeds h (make_temp (dir_of h)) ≡ true)
            × (answer.1 ≡ remove_all (dir_of h) ∷ cloned_into url h)
            × ((answer.0 ≡ ok tt)
                ↔ ((world.succeeds (made h) (clone url (dir_of h)) ≡ true) × HasMkrepoFile url h)))
  unfolding register_template clone_repo make_temp_dir perform done deferring ◌>>=◌
  register_template_lem url full_name h =
      elim (Bool-cases (world.succeeds h (make_temp (dir_of h)))) [
        | inr bad ↦ inl (bad, rw bad refl)
        | inl good ↦ elim (Bool-cases (world.succeeds (made h) (clone url (dir_of h)))) [
          | inr bad ↦
              inr
                (good, rw (good, bad) refl, (λ e. let k = rw (good, bad) at e in cc, λ (f, _). cc))
          | inl fine ↦ inr (
            good,
            rw (good, fine) refl,
            (
              λ e. (fine, (checked_iff _).0 (rw (good, fine) at e)),
              λ (_, has). rw (good, fine) ((checked_iff _).1 has),
            ),
          )
        ]
      ]
