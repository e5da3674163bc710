-- ===== src/Service/Template/Written.antt =====
-- Which files `executeTemplateDir` creates.
use mkrepo.Base.{String, ◌≡◌, sym, ap, ◌↔◌, ◌⊎◌, inl, inr, Bool, true, false, ◌==◌}
use mkrepo.Base.{List, [], ◌∷◌, Elem, ok, arith, Bool-cases}
use mkrepo.Base.Text.{trim_suffix}
use mkrepo.Service.Work.{World, History, done, fail, perform-ok, >>=-ok}
use mkrepo.Service.Work.{create_file, execute}
use mkrepo.Service.Template.{Walked, visited, unreadable, visit, write_file, execute_template_dir}

module _ (world : World) (parses : String → Bool) (join : String → String → String)
    (dst : String) where
  -- The file is made from some entry of the walk that is no directory and is not named mkrepo.yaml,
  -- and is named after it, without ".tmpl".
  abbrev pub IsTarget : String → Walked → Type 0
  IsTarget target unreadable = ⊥
  IsTarget target (visited path entry) =
      (entry.is_dir ≡ false)
      × ((entry.name == "mkrepo.yaml") ≡ false)
      × (target ≡ join dst (trim_suffix path ".tmpl"))

  abbrev pub IsTargetOf : String → List Walked → Type 0
  IsTargetOf target [] = ⊥
  IsTargetOf target (walked ∷ rest) = IsTarget target walked ⊎ IsTargetOf target rest

  done-same : (h h' : History) → done tt h ≡ (ok tt, h') → h' ≡ h
  unfolding done
  done-same h h' e = ap (λ p. p.1) (sym e)

  write_file-ok :
      (target : String) (fine : Bool) (h h' : History)
      → write_file world parses join target fine h ≡ (ok tt, h')
      → h' ≡ execute target ∷ create_file target ∷ h
  unfolding write_file
  write_file-ok target true h h' e =
      let (_, h₁, e₁, r₁) = >>=-ok _ _ h e in
      cc (perform-ok world _ h h₁ e₁, perform-ok world _ h₁ h' r₁)
  write_file-ok target false h h' e = unfold fail in cc

  -- What one step leaves.
  visit-ok :
      (walked : Walked) (h h' : History) (target : String)
      → visit world parses join dst walked h ≡ (ok tt, h')
      → Elem (create_file target) h' ↔ (IsTarget target walked ⊎ Elem (create_file target) h)
  unfolding visit
  visit-ok unreadable h h' target e = unfold fail in cc
  visit-ok (visited path entry) h h' target e = elim (Bool-cases entry.is_dir) [
    | inl dir ↦ let same = done-same h h' (rw dir at e) in rw same (ground arith)
    | inr file ↦ elim (Bool-cases (entry.name == "mkrepo.yaml")) [
      | inl skip ↦ let same = done-same h h' (rw (file, skip) at e) in rw same (ground arith)
      | inr written ↦
          let same = write_file-ok _ (parses path) h h' (rw (file, written) at e) in
          rw same (ground arith)
    ]
  ]

  -- When the execution of a directory succeeds, the files that it has created are exactly one for each
  -- entry of the walk that is no directory and is not named mkrepo.yaml, under the entry's path
  -- without the suffix ".tmpl", in the destination; those created before it are still there.
  pub execute_template_dir-ok :
      (walk : List Walked) (h h' : History) (target : String)
      → execute_template_dir world parses join dst walk h ≡ (ok tt, h')
      → Elem (create_file target) h' ↔ (IsTargetOf target walk ⊎ Elem (create_file target) h)
  unfolding execute_template_dir
  execute_template_dir-ok [] h h' target e =
      rw (done-same h h' e) (λ x. inr x, λ c. elim c [ inl never ↦ elim never [ ] | inr x ↦ x ])
  execute_template_dir-ok (walked ∷ rest) h h' target e =
      let (_, h₁, e₁, r₁) = >>=-ok _ _ h e in
      let one = visit-ok walked h h₁ target e₁ in
      let all = execute_template_dir-ok rest h₁ h' target r₁ in ground arith
