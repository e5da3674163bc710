-- ===== src/Service/Template/Tests.antt =====
-- Runs of template.go, and its theorems at concrete data.
use mkrepo.Base.{String, ◌<>◌, ◌≡◌, refl, ◌↔◌, ◌⊎◌, true, false, Option, none, some, List, [], ◌∷◌}
use mkrepo.Base.{Bool, Result, ok, err, ◌==◌, if◌then◌else◌}
use mkrepo.Base.Text.{trim_suffix}
use mkrepo.Service.Work.{World, History, Effect, failed, make_temp, remove_all, clone}
use mkrepo.Service.Work.{create_file, execute, perform, done, ◌>>=◌}
use mkrepo.Service.Template.{MkrepoFile, FileSystems, register_template, prepare_template}
use mkrepo.Service.Template.{prepare_template_version, prepare_templates}
use mkrepo.Service.Template.{Walked, visited, execute_template_dir}
use mkrepo.Service.Template.Laws.{HasMkrepoFile, register_template_lem}

-- A world in which only the clone of one repository fails.
abbrev can : Effect → Bool
can (clone url dir) = url == "https://x/good"
can other = true

abbrev world : World
world = record { succeeds = λ h e. can e; temp_name = λ h. "/tmp/mkrepo-1" }

abbrev decode : String → Result String (MkrepoFile Unit)
decode text = ok (record { description = some text; lang = none; schema = none })

abbrev disk : History → String → Option String
disk h path = if path == "/tmp/mkrepo-1/mkrepo.yaml" then some "a site" else none

register_template_lem_example :
    let answer = register_template world decode disk "https://x/good" "x/good" [] in
    ((true ≡ false) × (answer ≡ (err failed, make_temp "/tmp/mkrepo-1" ∷ [])))
    ⊎ ((true ≡ true)
        × (answer.1
            ≡ remove_all "/tmp/mkrepo-1"
              ∷ clone "https://x/good" "/tmp/mkrepo-1"
              ∷ make_temp "/tmp/mkrepo-1"
              ∷ [])
        × ((answer.0 ≡ ok tt)
            ↔ ((true ≡ true) × HasMkrepoFile world decode disk "https://x/good" [])))
register_template_lem_example = register_template_lem world decode disk "https://x/good" "x/good" []

-- A directory is what its path is, and the root has one template with one version.
abbrev files : FileSystems String
files = record {
  read_dir = λ path.
      if path == "."
      then ok
          (record { name = "go"; is_dir = true } ∷ record { name = "README"; is_dir = false } ∷ [])
      else ok (record { name = "v1"; is_dir = true } ∷ []);
  sub = λ path name. ok (path <> "/" <> name);
  open_file = λ path name. if path == "./go/v1" then ok "a program" else err "no such file";
}

prepared : prepare_templates files decode "." ≡ ok 1
unfolding prepare_templates prepare_template prepare_template_version
prepared = refl

abbrev join : String → String → String
join dir path = dir <> "/" <> path

abbrev walk : List Walked
walk =
    visited "." (record { name = "."; is_dir = true })
    ∷ visited "main.go.tmpl" (record { name = "main.go.tmpl"; is_dir = false })
    ∷ visited "mkrepo.yaml" (record { name = "mkrepo.yaml"; is_dir = false })
    ∷ []

abbrev after_walk : History
after_walk = execute "/tmp/t/main.go" ∷ create_file "/tmp/t/main.go" ∷ []

walked : execute_template_dir world (λ path. true) join "/tmp/t" walk [] ≡ (ok tt, after_walk)
unfolding execute_template_dir perform done ◌>>=◌ trim_suffix
walked = refl
