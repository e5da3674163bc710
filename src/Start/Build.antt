-- ===== src/Start/Build.antt =====
-- internal/build.go and the "version" command of cmd/mkrepo/main.go. The three texts are set by the
-- linker; `parse_time` and `format_time` are `time.Parse` and `Format` with the layout RFC 3339.
use mkrepo.Base.{
  ℕ, String, ◌<>◌, ◌≡◌, ◌↔◌, refl, ◌==◌, if◌then◌else◌, Option, none, some, ok, err, Result,
}
use mkrepo.Base.{◌⊎◌, inl, inr, eq_iff, Bool-cases, Option-cases}
use mkrepo.Start.{StartError, panicked}

pub record BuildInfo : Type 0 where
  pub version : String
  pub go_version : String
  pub revision : String
  pub build_datetime : ℕ

-- What the linker and the compiler leave in the program.
pub record Linked : Type 0 where
  pub version : String
  pub go_version : String
  pub revision : String
  pub build_datetime : String

-- A time that is missing is Go's zero time.
abbrev info_at : Linked → ℕ → BuildInfo
info_at linked time = record {
  version = linked.version;
  go_version = linked.go_version;
  revision = linked.revision;
  build_datetime = time;
}

parsed_at : Linked → Option ℕ → Result StartError BuildInfo
parsed_at linked none = err panicked
parsed_at linked (some time) = ok (info_at linked time)

-- It runs before `main`, and so its panic ends the program before a command is read.
unfoldable pub init_build_info : (String → Option ℕ) → Linked → Result StartError BuildInfo
unfolding parsed_at
init_build_info parse_time linked =
    if linked.build_datetime == ""
    then ok (info_at linked 0)
    else parsed_at linked (parse_time linked.build_datetime)

-- What the command prints.
unfoldable pub version_text : (ℕ → String) → BuildInfo → String
version_text format_time build =
    "version: "
    <> build.version
    <> " ("
    <> build.go_version
    <> ")\n"
    <> ("revision: " <> build.revision <> "\n")
    <> ("build datetime: " <> format_time build.build_datetime <> "\n")

-- The program starts exactly if it was built without a time or with one that can be read.
pub init_build_info_iff :
    (parse_time : String → Option ℕ) (linked : Linked)
    → ((build : BuildInfo) × (init_build_info parse_time linked ≡ ok build)) ↔ (
        (linked.build_datetime ≡ "")
        ⊎ ((time : ℕ) × (parse_time linked.build_datetime ≡ some time)))
unfolding init_build_info parsed_at
init_build_info_iff parse_time linked = elim (Bool-cases (linked.build_datetime == "")) [
  | inl empty ↦
      let same = (eq_iff linked.build_datetime "").0 empty in
      (λ made. inl same, λ given. (info_at linked 0, rw empty refl))
  | inr full ↦ elim (Option-cases (parse_time linked.build_datetime)) [
    | inr (time, known) ↦
        (λ made. inr (time, known), λ given. (info_at linked time, rw (full, known) refl))
    | inl unknown ↦ (
      λ (build, made). absurd (let k = rw (full, unknown) at made in cc),
      λ given. elim given [
        | inl empty ↦ absurd (let k = (eq_iff linked.build_datetime "").1 empty in cc)
        | inr (time, known) ↦ absurd cc
      ],
    )
  ]
]
