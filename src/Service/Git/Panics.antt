-- ===== src/Service/Git/Panics.antt =====
-- `cloneRepo` does not panic, and `pushRepo` only without an `Initialize`.
use mkrepo.Base.{String, ◌≡◌, Option, none, some, Bool-cases, inl, inr}
use mkrepo.Service.{CreateRepo, CreateRepoInitialize}
use mkrepo.Service.Work.{World, perform, clone}
use mkrepo.Service.Git.{make_temp_dir, push_repo, create_tag_of, clone_repo, cloned}
use mkrepo.Service.Work.Panics.{
  NoPanic, done-NoPanic, perform-NoPanic, >>=-NoPanic, deref->>=-NoPanic,
}

module _ (world : World) where
  pub make_temp_dir-NoPanic : NoPanic (make_temp_dir world)
  unfolding make_temp_dir
  make_temp_dir-NoPanic h = >>=-NoPanic _ _ (perform-NoPanic world _) (λ u. done-NoPanic _) h

  cloned-NoPanic :
      (url dir : String) → NoPanic (λ h. cloned world dir (perform world (clone url dir) h))
  unfolding cloned perform
  cloned-NoPanic url dir h e = elim (Bool-cases (world.succeeds h (clone url dir))) [
    | inl fine ↦ let k = rw fine at e in cc
    | inr fails ↦ let k = rw fails at e in cc
  ]

  pub clone_repo-NoPanic : (url : String) → NoPanic (clone_repo world url)
  unfolding clone_repo
  clone_repo-NoPanic url = >>=-NoPanic _ _ make_temp_dir-NoPanic (cloned-NoPanic url)

  create_tag_of-NoPanic : (tag : Option String) → NoPanic (create_tag_of world tag)
  unfolding create_tag_of
  create_tag_of-NoPanic none = done-NoPanic tt
  create_tag_of-NoPanic (some tag) = perform-NoPanic world _

  pub push_repo-NoPanic :
      (repo : CreateRepo) (init : CreateRepoInitialize) (dir remote token : String)
      → repo.initialize ≡ some init
      → NoPanic (push_repo world repo dir remote token)
  unfolding push_repo
  push_repo-NoPanic repo init dir remote token given =
      >>=-NoPanic _ _ (perform-NoPanic world _) λ _. >>=-NoPanic _ _ (perform-NoPanic world _) λ _.
        >>=-NoPanic _ _ (perform-NoPanic world _) λ _.
          deref->>=-NoPanic repo.initialize init _ given (
            >>=-NoPanic _ _ (perform-NoPanic world _) λ _.
              >>=-NoPanic _ _ (perform-NoPanic world _) λ _.
                >>=-NoPanic _ _ (create_tag_of-NoPanic init.tag)
                  λ _. >>=-NoPanic _ _ (perform-NoPanic world _) λ _. perform-NoPanic world _)
