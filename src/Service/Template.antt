-- ===== src/Service/Template.antt =====
-- internal/service/template.go. The file systems, the YAML decoder and the content that a clone
-- leaves on the disk are parameters; the code that would store a template is commented out.
pub mod Panics
pub mod Laws
pub mod Prepared
pub mod Written
mod Tests
use mkrepo.Base.{ℕ, suc, String, ◌<>◌, Bool, true, false, Option, List, [], ◌∷◌, ◌==◌}
use mkrepo.Base.{if◌then◌else◌, Result, ok, err, or_err, map_err, ◌>>=◌, ◌>>◌}
use mkrepo.Base.Text.{trim_suffix}
use mkrepo.Service.Gitignore.{DirEntry}
use mkrepo.Service.Work.{
  World, Work, History, Failure, failed, done, fail, perform, deferring, remove_all, create_file,
}
use mkrepo.Service.Work.{execute, ◌>>=◌ as ◌>>>=◌, ◌>>◌ as ◌>>>◌}
use mkrepo.Service.Git.{clone_repo}

-- `Schema` is `jsonschema.Schema`.
pub record MkrepoFile (Schema : Type 0) : Type 0 where
  pub description : Option String
  pub lang : Option String
  pub schema : Option Schema

-- `fs.FS`: `ReadDir` of its root, `Sub`, and `Open` with the whole content.
pub record FileSystems (FS : Type 0) : Type 0 where
  pub read_dir : FS → Result String (List DirEntry)
  pub sub : FS → String → Result String FS
  pub open_file : FS → String → Result String String

module _ {FS Schema : Type 0} (files : FileSystems FS)
    (decode : String → Result String (MkrepoFile Schema)) where
  -- The loop over the entries, with the number of the directories that were prepared.
  each_dir : (FS → String → Result String Unit) → FS → List DirEntry → Result String ℕ
  each_dir prepare fs [] = ok 0
  each_dir prepare fs (entry ∷ entries) =
      let rest = each_dir prepare fs entries in
      if entry.is_dir
      then (do dir ← files.sub fs entry.name; prepare dir entry.name; count ← rest; ok (suc count))
      else rest

  unfoldable pub prepare_template_version : FS → String → String → Result String Unit
  prepare_template_version fs name version = do
    content ← files.open_file fs "mkrepo.yaml"
    mkrepo ← decode content
    ok tt

  unfoldable pub prepare_template : FS → String → Result String Unit
  unfolding each_dir
  prepare_template fs name = do
    entries ← files.read_dir fs
    count ← each_dir (λ dir version. prepare_template_version dir name version) fs entries
    ok tt

  -- The count is what is logged.
  unfoldable pub prepare_templates : FS → Result String ℕ
  unfolding each_dir
  prepare_templates fs = do entries ← files.read_dir fs; each_dir prepare_template fs entries

module _ {Schema : Type 0} (world : World)
    (decode : String → Result String (MkrepoFile Schema)) where
  -- `disk` is the content of a file, if it can be opened.
  checked : Result Failure String → Result Failure Unit
  checked opened = do content ← opened; mkrepo ← map_err (λ _. failed) (decode content); ok tt

  unfoldable pub register_template :
      (History → String → Option String) → String → String → Work Unit
  unfolding checked
  register_template disk url full_name = clone_repo world url >>>= λ dir.
      deferring world (remove_all dir)
        λ h. (checked (or_err (disk h (dir <> "/mkrepo.yaml")) failed), h)

-- What `fs.WalkDir` calls its function with.
pub data Walked : Type 0 where
  visited : String → DirEntry → Walked
  unreadable : Walked

-- `parses` tells which files `template.ParseFS` accepts, and `join` is `filepath.Join`.
module _ (world : World) (parses : String → Bool) (join : String → String → String) where
  unfoldable pub write_file : String → Bool → Work Unit
  write_file target true = perform world (create_file target) >>> perform world (execute target)
  write_file target false = fail failed

  visit : String → Walked → Work Unit
  unfolding write_file
  visit dst_dir unreadable = fail failed
  visit dst_dir (visited path entry) =
      if entry.is_dir
      then done tt
      else if entry.name == "mkrepo.yaml"
      then done tt
      else write_file (join dst_dir (trim_suffix path ".tmpl")) (parses path)

  unfoldable pub execute_template_dir : String → List Walked → Work Unit
  unfolding visit
  execute_template_dir dst_dir [] = done tt
  execute_template_dir dst_dir (walked ∷ rest) =
      visit dst_dir walked >>> execute_template_dir dst_dir rest
