-- ===== src/Service/Template/Prepared.antt =====
-- `PrepareTemplates` against what it is meant to find.
use mathlib.Core.Path.{subst}
use mkrepo.Base.{ℕ, suc, String, ◌≡◌, refl, sym, ap, ◌∙◌, ◌↔◌, inl, inr, true, ◌>>=◌}
use mkrepo.Base.{List, [], ◌∷◌, All, only, length, Result, ok, err}
use mkrepo.Base.{Bool-cases, ok-injective}
use mkrepo.Service.Gitignore.{DirEntry}
use mkrepo.Service.Template.{
  MkrepoFile, FileSystems, each_dir, prepare_template_version, prepare_template, prepare_templates,
}

-- How many of the entries are directories.
abbrev pub directories : List DirEntry → ℕ
directories entries = length (only (λ entry. entry.is_dir) entries)

-- A sequence that succeeds is made of two parts that do.
>>=_iff :
    {A B : Type 0} (r : Result String A) (f : A → Result String B) (b : B)
    → ((r >>= f) ≡ ok b) ↔ ((a : A) × (r ≡ ok a) × (f a ≡ ok b))
>>=_iff (ok a) f b = (
  λ h. (a, refl, h),
  λ (a', same, h). subst (λ x. f x ≡ ok b) (sym (ok-injective {E = String} same)) h,
)
>>=_iff (err e) f b = (λ h. cc, λ (a, bad, h). cc)

module _ {FS Schema : Type 0} (files : FileSystems FS)
    (decode : String → Result String (MkrepoFile Schema)) where
  -- The root has an mkrepo.yaml that can be decoded.
  abbrev pub IsVersion : FS → Type 0
  IsVersion fs =
      (content : String) × (files.open_file fs "mkrepo.yaml" ≡ ok content)
      × (mkrepo : MkrepoFile Schema) × (decode content ≡ ok mkrepo)

  -- Every directory among the entries is of a kind.
  abbrev pub EachDir : (FS → Type 0) → FS → List DirEntry → Type 0
  EachDir P fs entries =
      All (λ entry. entry.is_dir ≡ true → (dir : FS) × (files.sub fs entry.name ≡ ok dir) × P dir)
        entries

  abbrev pub IsTemplate : FS → Type 0
  IsTemplate fs =
      (entries : List DirEntry) × (files.read_dir fs ≡ ok entries) × EachDir IsVersion fs entries

  each_dir_iff :
      (P : FS → Type 0) (prepare : FS → String → Result String Unit)
      → ((dir : FS) (name : String) → (prepare dir name ≡ ok tt) ↔ P dir)
      → (fs : FS) (entries : List DirEntry) (count : ℕ)
      → (each_dir files decode prepare fs entries ≡ ok count)
        ↔ (EachDir P fs entries × (count ≡ directories entries))
  unfolding each_dir
  each_dir_iff P prepare spec fs [] count =
      (λ h. (tt, sym (ok-injective {E = String} h)), λ (_, h). ap ok (sym h))
  each_dir_iff P prepare spec fs (entry ∷ entries) count =
      let rest = each_dir_iff P prepare spec fs entries in
      elim (Bool-cases entry.is_dir) [
        | inr file ↦ (
          λ h.
              let (each, counted) = (rest count).0 (rw file at h) in
              ((λ dir. cc, each), rw file counted),
          λ ((_, each), counted). rw file ((rest count).1 (each, rw file at counted)),
        )
        | inl dir ↦ (
          λ h.
              let (d, sub, h₁) = (>>=_iff (files.sub fs entry.name) _ count).0 (rw dir at h) in
              let (u, good, h₂) = (>>=_iff (prepare d entry.name) _ count).0 h₁ in
              let (n, later, h₃) =
                (>>=_iff (each_dir files decode prepare fs entries) _ count).0 h₂ in
              let (each, counted) = (rest n).0 later in
              (
                (λ _. (d, sub, (spec d entry.name).0 good), each),
                rw dir (sym (ok-injective {E = String} h₃) ∙ ap suc counted),
              ),
          λ ((found, each), counted).
              let (d, sub, kind) = found dir in
              let good = (spec d entry.name).1 kind in
              let later = (rest (directories entries)).1 (each, refl) in
              rw (dir, sub, good, later) (ap ok (sym (rw dir at counted))),
        )
      ]

  prepare_template_version_iff :
      (fs : FS) (name version : String)
      → (prepare_template_version files decode fs name version ≡ ok tt) ↔ IsVersion fs
  unfolding prepare_template_version
  prepare_template_version_iff fs name version = (
    λ h.
        let (content, opened, h₁) = (>>=_iff (files.open_file fs "mkrepo.yaml") _ tt).0 h in
        let (mkrepo, decoded, _) = (>>=_iff (decode content) _ tt).0 h₁ in
        (content, opened, mkrepo, decoded),
    λ (content, opened, mkrepo, decoded). rw (opened, decoded) refl,
  )

  prepare_template_iff :
      (fs : FS) (name : String) → (prepare_template files decode fs name ≡ ok tt) ↔ IsTemplate fs
  unfolding prepare_template
  prepare_template_iff fs name =
      let prepare =
        λ (dir : FS) (version : String). prepare_template_version files decode dir name version in
      let loop =
        each_dir_iff IsVersion prepare
          (λ dir version. prepare_template_version_iff dir name version) fs in
      (
        λ h.
            let (entries, listed, h₁) = (>>=_iff (files.read_dir fs) _ tt).0 h in
            let (count, each, _) = (>>=_iff (each_dir files decode prepare fs entries) _ tt).0 h₁ in
            (entries, listed, ((loop entries count).0 each).0),
        λ (entries, listed, each).
            rw (listed, (loop entries (directories entries)).1 (each, refl)) refl,
      )

  -- The templates are prepared exactly when the root can be read, every directory in it is a
  -- template, which can be read, and every directory in that is a version, with an mkrepo.yaml that
  -- can be opened and decoded; the count is the number of the directories in the root. Files that are
  -- no directories are passed over on both levels.
  pub prepare_templates_iff :
      (fs : FS) (count : ℕ)
      → (prepare_templates files decode fs ≡ ok count) ↔ (
          (entries : List DirEntry) × (files.read_dir fs ≡ ok entries)
          × EachDir IsTemplate fs entries
          × (count ≡ directories entries))
  unfolding prepare_templates
  prepare_templates_iff fs count =
      let loop = each_dir_iff IsTemplate (prepare_template files decode) prepare_template_iff fs in
      (
        λ h.
            let (entries, listed, h₁) = (>>=_iff (files.read_dir fs) _ count).0 h in
            let (each, counted) = (loop entries count).0 h₁ in (entries, listed, each, counted),
        λ (entries, listed, each, counted). rw listed ((loop entries count).1 (each, counted)),
      )
