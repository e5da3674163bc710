-- ===== src/Service/Create/Disk.antt =====
-- What `addFiles` puts into the directory that is pushed.
use mkrepo.Base.{String, Bool, ◌<>◌, ◌≡◌, refl, ◌⊎◌, inl, inr, Option, none, some, true, false}
use mkrepo.Service.{CreateRepo, CreateRepoInitialize, CreateRepoTemplate}
use mkrepo.Service.Gitignore.{gitignore_source}
use mkrepo.Service.Work.{World, Effect, perform, write_memory, make_dirs, create_file, copy_file}
use mkrepo.Service.Work.Calls.{
  Calls, done-Calls, fail-Calls, perform-Calls, Calls-bind, deref->>=-Calls,
}
use mkrepo.Service.License.Calls.{add_license-Calls}
use mkrepo.Service.Create.{
  MkrepoService, add_files, template_files, readme_file, gitignore_file, license_file,
  add_gitignore, source_of,
}

-- The call is on the in-memory file system, or makes the directory's .gitignore.
abbrev pub IsIgnoreOnly : String → Effect → Type 0
IsIgnoreOnly dir e =
    ((file : String) × (e ≡ write_memory file))
    ⊎ (e ≡ make_dirs dir)
    ⊎ (e ≡ create_file (dir <> "/.gitignore"))
    ⊎ (e ≡ copy_file (dir <> "/.gitignore"))

module _ (world : World) (service : MkrepoService) (dir : String) where
  write_memory-Calls :
      (file : String) → Calls (IsIgnoreOnly dir) (perform world (write_memory file))
  write_memory-Calls file = perform-Calls world _ (inl (file, refl))

  license_file-Calls :
      (key : Option String) → Calls (IsIgnoreOnly dir) (license_file world service key)
  unfolding license_file
  license_file-Calls none = done-Calls tt
  license_file-Calls (some key) = add_license-Calls world service.licenses write_memory-Calls key

  template_files-Calls :
      (template : Option CreateRepoTemplate)
      → template ≡ none
      → Calls (IsIgnoreOnly dir) (template_files world service dir template)
  unfolding template_files
  template_files-Calls none without = done-Calls tt
  template_files-Calls (some template) without = cc

  readme_file-Calls :
      (readme : Option Bool) → Calls (IsIgnoreOnly dir) (readme_file world service readme)
  unfolding readme_file
  readme_file-Calls none = done-Calls tt
  readme_file-Calls (some true) = write_memory-Calls "README.md"
  readme_file-Calls (some false) = done-Calls tt

  gitignore_file-Calls :
      (name : Option String) → Calls (IsIgnoreOnly dir) (gitignore_file world service dir name)
  unfolding gitignore_file add_gitignore
  gitignore_file-Calls none = done-Calls tt
  gitignore_file-Calls (some name) =
      Calls-bind _ _ (source-Calls (gitignore_source service.gitignores name)) λ content.
        Calls-bind _ _ (perform-Calls world _ (inr (inl refl))) λ _.
          Calls-bind _ _ (perform-Calls world _ (inr (inr (inl refl))))
            λ _. perform-Calls world _ (inr (inr (inr refl)))
    where
      source-Calls : (o : Option String) → Calls (IsIgnoreOnly dir) (source_of world service name o)
      source-Calls none = fail-Calls _
      source-Calls (some content) = done-Calls content

  -- Without a template the readme and the license never reach the directory that is pushed: whatever
  -- the calls answer, each call of `addFiles` is on the in-memory file system, which is dropped, or
  -- makes the .gitignore of the directory.
  pub add_files-Calls :
      (repo : CreateRepo) (init : CreateRepoInitialize)
      → repo.initialize ≡ some init
      → init.template ≡ none
      → Calls (IsIgnoreOnly dir) (add_files world service repo dir)
  unfolding add_files readme_file
  add_files-Calls repo init given without = deref->>=-Calls repo.initialize init _ given (
      Calls-bind _ _ (template_files-Calls init.template without) λ _.
        Calls-bind _ _ (readme_file-Calls init.readme) λ _.
          Calls-bind _ _ (gitignore_file-Calls init.gitignore) λ _. license_file-Calls init.license)
