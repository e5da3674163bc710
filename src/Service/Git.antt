-- ===== src/Service/Git.antt =====
-- internal/service/git.go: `cloneRepo` and `pushRepo`.
pub mod Panics
use mkrepo.Base.{String, ◌≡◌, ap, sym, Bool, Option, none, some, ◌∷◌, Result, ok, err}
use mkrepo.Service.{CreateRepo, CreateRepoInitialize, is_true}
use mkrepo.Service.Work.{
  World, Work, History, Failure, perform, done, deref, deref-ok, ◌>>=◌, ◌>>◌, >>=-ok, perform-ok,
}
use mkrepo.Service.Work.{
  make_temp, remove_all, clone, plain_init, worktree, add_all, commit, commit_object, create_tag,
  create_remote, push,
}

-- The history of a push that went through, the last call first.
abbrev tagged : Option String → History → History
tagged none h = h
tagged (some tag) h = create_tag tag ∷ h

abbrev pub pushed : CreateRepoInitialize → Bool → String → String → String → History → History
pushed init sha256 dir remote token h =
    push token
    ∷ create_remote remote
    ∷ tagged init.tag (
        commit_object
        ∷ commit init.author.name init.author.email
        ∷ add_all
        ∷ worktree
        ∷ plain_init dir sha256
        ∷ h)

module _ (world : World) where
  -- `os.MkdirTemp`
  unfoldable pub make_temp_dir : Work String
  make_temp_dir h = let dir = world.temp_name h in (perform world (make_temp dir) >> done dir) h

  -- The error of the removal is only joined to that of the clone.
  cloned : String → Result Failure Unit × History → Result Failure String × History
  cloned dir (ok u, h) = (ok dir, h)
  cloned dir (err e, h) = (err e, (perform world (remove_all dir) h).1)

  unfoldable pub clone_repo : String → Work String
  unfolding cloned
  clone_repo url = do dir ← make_temp_dir; λ h. cloned dir (perform world (clone url dir) h)

  create_tag_of : Option String → Work Unit
  create_tag_of none = done tt
  create_tag_of (some tag) = perform world (create_tag tag)

  unfoldable pub push_repo : CreateRepo → String → String → String → Work Unit
  unfolding create_tag_of
  push_repo repo dir remote token = do
    perform world (plain_init dir (is_true repo.sha256))
    perform world worktree
    perform world add_all
    init ← deref repo.initialize
    perform world (commit init.author.name init.author.email)
    perform world commit_object
    create_tag_of init.tag
    perform world (create_remote remote)
    perform world (push token)

  create_tag_of-ok :
      (tag : Option String) (h h' : History) → create_tag_of tag h ≡ (ok tt, h') → h' ≡ tagged tag h
  unfolding create_tag_of done
  create_tag_of-ok none h h' e = ap (λ p. p.1) (sym e)
  create_tag_of-ok (some tag) h h' e = perform-ok world (create_tag tag) h h' e

  -- A push that succeeds has made every call of `pushRepo` once and in its order: the repository is
  -- initialized, all files are added and committed under the author's name, the tag is set if one
  -- was asked for, and only then the remote is added and pushed to.
  pub push_repo-ok :
      (repo : CreateRepo) (dir remote token : String) (h h' : History)
      → push_repo repo dir remote token h ≡ (ok tt, h')
      → (init : CreateRepoInitialize) × (repo.initialize ≡ some init)
        × (h' ≡ pushed init (is_true repo.sha256) dir remote token h)
  unfolding push_repo
  push_repo-ok repo dir remote token h h' e =
      let (_, h₁, e₁, r₁) = >>=-ok _ _ h e in
      let (_, h₂, e₂, r₂) = >>=-ok _ _ h₁ r₁ in
      let (_, h₃, e₃, r₃) = >>=-ok _ _ h₂ r₂ in
      let (init, h₄, e₄, r₄) = >>=-ok _ _ h₃ r₃ in
      let (_, h₅, e₅, r₅) = >>=-ok _ _ h₄ r₄ in
      let (_, h₆, e₆, r₆) = >>=-ok _ _ h₅ r₅ in
      let (_, h₇, e₇, r₇) = >>=-ok _ _ h₆ r₆ in
      let (_, h₈, e₈, r₈) = >>=-ok _ _ h₇ r₇ in
      let (there, same) = deref-ok repo.initialize h₃ h₄ e₄ in
      (
        init,
        there,
        cc (
          perform-ok world _ h h₁ e₁,
          perform-ok world _ h₁ h₂ e₂,
          perform-ok world _ h₂ h₃ e₃,
          same,
          perform-ok world _ h₄ h₅ e₅,
          perform-ok world _ h₅ h₆ e₆,
          create_tag_of-ok init.tag h₆ h₇ e₇,
          perform-ok world _ h₇ h₈ e₈,
          perform-ok world _ h₈ h' r₈,
        ),
      )
