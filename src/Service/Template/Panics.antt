-- ===== src/Service/Template/Panics.antt =====
-- `RegisterTemplate` does not panic.
use mkrepo.Base.{String, ◌≡◌, Option, none, some, Result, err, Result-cases, inl, inr, or_err}
use mkrepo.Service.Work.{World, History, failed, panic}
use mkrepo.Service.Template.{MkrepoFile, register_template, checked}
use mkrepo.Service.Work.Panics.{NoPanic, >>=-NoPanic, deferring-NoPanic}
use mkrepo.Service.Git.Panics.{clone_repo-NoPanic}

module _ {Schema : Type 0} (world : World) (decode : String → Result String (MkrepoFile Schema))
    (disk : History → String → Option String) where
  checked-NoPanic :
      (path : String) → NoPanic (λ h. (checked world decode (or_err (disk h path) failed), h))
  unfolding checked
  checked-NoPanic path h e = at_file (disk h path) e
    where
      at_file : (o : Option String) → (checked world decode (or_err o failed)) ≡ err panic → ⊥
      at_file none e = cc
      at_file (some content) e = elim (Result-cases (decode content)) [
        | inl (mkrepo, good) ↦ let k = rw good at e in cc
        | inr (text, bad) ↦ let k = rw bad at e in cc
      ]

  pub register_template-NoPanic :
      (url full_name : String) → NoPanic (register_template world decode disk url full_name)
  unfolding register_template
  register_template-NoPanic url full_name =
      >>=-NoPanic _ _ (clone_repo-NoPanic world url)
        λ dir. deferring-NoPanic world _ _ (checked-NoPanic _)
