-- ===== src/Service/Gitignore.antt =====
-- internal/service/gitignore.go, and `addGitignore` and `addFile` of internal/service/mkrepo.go as
-- far as they choose the file. The embedded file system is a parameter.
use mkrepo.Base.{
  String, ◌<>◌, ◌≡◌, refl, ap, Bool, false, Option, List, [], ◌∷◌, Elem, inl, inr, sym, arith,
  Bool-cases,
}
use mkrepo.Base.{if◌then◌else◌, Result, ok, ◌>>=◌}
use mkrepo.Base.Text.{trim_suffix, trim_suffix-append}

pub record DirEntry : Type 0 where
  pub name : String
  pub is_dir : Bool

-- `fs.FS`: `read_dir` of its root, and `open` with the whole content.
pub record Files : Type 0 where
  pub read_dir : Result String (List DirEntry)
  pub open_file : String → Option String

abbrev pub suffix : String
suffix = ".gitignore"

prepare_loop : List DirEntry → List String
prepare_loop [] = []
prepare_loop (entry ∷ entries) =
    let rest = prepare_loop entries in
    if entry.is_dir then rest else trim_suffix entry.name suffix ∷ rest

unfoldable pub prepare_gitignores : Files → Result String (List String)
unfolding prepare_loop
prepare_gitignores files = do entries ← files.read_dir; ok (prepare_loop entries)

-- The content that is copied to `.gitignore`.
unfoldable pub gitignore_source : Files → String → Option String
gitignore_source files name = files.open_file (name <> suffix)

-- A file is listed under its name without the suffix.
listed :
    (entries : List DirEntry) (entry : DirEntry) (name : String)
    → Elem entry entries
    → entry.is_dir ≡ false
    → entry.name ≡ name <> suffix
    → Elem name (prepare_loop entries)
unfolding prepare_loop
listed [] entry name e file named = elim e [ ]
listed (entry' ∷ entries) entry name (inl same) file named =
    rw (← same) (rw (file, named, trim_suffix-append) (inl refl))
listed (entry' ∷ entries) entry name (inr later) file named =
    ground (arith, listed entries entry name later file named)

comes_from_file :
    (entries : List DirEntry) (name : String)
    → Elem name (prepare_loop entries)
    → (entry : DirEntry) × Elem entry entries
      × (entry.is_dir ≡ false)
      × (trim_suffix entry.name suffix ≡ name)
unfolding prepare_loop
comes_from_file [] name e = elim e [ ]
comes_from_file (entry ∷ entries) name e = elim (Bool-cases entry.is_dir) [
  | inl dir ↦
      let (found, there, file', named) = comes_from_file entries name (rw dir at e) in
      (found, inr there, file', named)
  | inr file ↦ elim (rw file at e) [
    | inl same ↦ (entry, inl refl, file, sym same)
    | inr later ↦
        let (found, there, file', named) = comes_from_file entries name later in
        (found, inr there, file', named)
  ]
]

-- When the root of the file system can be read, every file in it that ends in ".gitignore" is listed
-- under its name without that suffix, and the name leads back to the file. Nothing else is listed
-- than files, each under its name without the suffix if it has it.
pub prepare_gitignores_lem :
    (files : Files) (entries : List DirEntry)
    → files.read_dir ≡ ok entries
    → (names : List String) × (prepare_gitignores files ≡ ok names)
      × ((entry : DirEntry) (name : String)
          → Elem entry entries
          → entry.is_dir ≡ false
          → entry.name ≡ name <> suffix
          → Elem name names × (gitignore_source files name ≡ files.open_file entry.name))
      × ((name : String)
          → Elem name names
          → (entry : DirEntry) × Elem entry entries
            × (entry.is_dir ≡ false)
            × (trim_suffix entry.name suffix ≡ name))
unfolding prepare_gitignores gitignore_source
prepare_gitignores_lem files entries read = (
  prepare_loop entries,
  rw read refl,
  λ entry name there file named.
      (listed entries entry name there file named, ap files.open_file (sym named)),
  comes_from_file entries,
)
