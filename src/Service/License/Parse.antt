-- ===== src/Service/License/Parse.antt =====
-- internal/service/license.go: `ParseLicensesFromBytes` and `ParseLicenses`. A license here has no
-- template; that of every license parses if the map of licenses is returned.
use mathlib.Core.Path.{subst}
use mkrepo.Base.{Bool-cases, or_else, or_else-none}
use mkrepo.Base.{String, ◌≡◌, refl, sym, ap, ◌∙◌, ◌↔◌, inl, inr, none, [], ◌∷◌}
use mkrepo.Base.{All, Result, ok, ◌>>=◌, Result-cases, ok-injective, ◌==◌}
use mkrepo.Base.{eq_iff}
use mkrepo.Base.Dict.{Dict, Distinct, lookup, insert, lookup-insert}
use mkrepo.Service.License.{License, Licenses}

-- `parse_fs` is `template.ParseFS` on the file system of the licenses.
module _ {Template : Type 0} (parse_fs : String → Result String Template) where
  parse_loop : Licenses → Dict License → Result String Licenses
  parse_loop licenses [] = ok licenses
  parse_loop licenses ((key, license) ∷ config) =
      let rest = parse_loop (insert key license licenses) config in
      parse_fs license.file >>= λ template. rest

  unfoldable pub parse_licenses : Dict License → Result String Licenses
  unfolding parse_loop
  parse_licenses config = parse_loop [] config

  -- `unmarshal` is `yaml.Unmarshal` into a `LicensesConfig`.
  unfoldable pub parse_licenses_from_bytes :
      (String → Result String (Dict License)) → String → Result String Licenses
  parse_licenses_from_bytes unmarshal bytes = unmarshal bytes >>= parse_licenses

  abbrev pub Parses : String × License → Type 0
  Parses entry = (template : Template) × (parse_fs entry.1.file ≡ ok template)

  lookup-step :
      (licenses config : Dict License) (key other : String) (license : License)
      → lookup key config ≡ none
      → or_else (lookup other config) (lookup other (insert key license licenses))
        ≡ or_else (lookup other ((key, license) ∷ config)) (lookup other licenses)
  unfolding lookup
  lookup-step licenses config key other license new = elim (Bool-cases (key == other)) [
    | inl same ↦
        let e : key ≡ other = (eq_iff key other).0 same in
        let gone : lookup other config ≡ none = subst (λ k. lookup k config ≡ none) e new in
        rw (gone, lookup-insert key other license licenses, same) refl
    | inr differ ↦ rw (lookup-insert key other license licenses, differ) refl
  ]

  -- What the loop returns finds the entries of the configuration before the older ones.
  parse_loop-ok :
      (licenses config result : Dict License)
      → Distinct config
      → parse_loop licenses config ≡ ok result
      → All Parses config
        × ((key : String) → lookup key result ≡ or_else (lookup key config) (lookup key licenses))
  unfolding parse_loop
  parse_loop-ok licenses [] result u e =
      (tt, λ key. unfold lookup in ap (lookup key) (sym (ok-injective {E = String} e)))
  parse_loop-ok licenses ((key, license) ∷ config) result u e =
      elim (Result-cases (parse_fs license.file)) [
        | inl (template, good) ↦
            let (all, found) =
              parse_loop-ok (insert key license licenses) config result u.1 (rw good at e) in
            (
              ((template, good), all),
              λ other. found other ∙ lookup-step licenses config key other license u.0,
            )
        | inr (text, bad) ↦ let never = rw bad at e in cc
      ]

  parse_loop_total :
      (licenses config : Dict License)
      → All Parses config
      → (result : Licenses) × (parse_loop licenses config ≡ ok result)
  unfolding parse_loop
  parse_loop_total licenses [] a = (licenses, refl)
  parse_loop_total licenses ((key, license) ∷ config) ((template, good), a) =
      let (result, e) = parse_loop_total (insert key license licenses) config a in
      (result, rw good e)

  -- The licenses of a configuration are returned exactly when the template of each can be parsed, and
  -- then every key has the license that it has in the configuration, in whatever order the loop takes
  -- them, and there are no others.
  pub parse_licenses_lem :
      (config : Dict License)
      → Distinct config
      → (((result : Licenses) × (parse_licenses config ≡ ok result)) ↔ All Parses config)
        × ((result : Licenses)
            → parse_licenses config ≡ ok result
            → (key : String) → lookup key result ≡ lookup key config)
  unfolding parse_licenses
  parse_licenses_lem config unique = (
    (
      λ (result, e). (parse_loop-ok [] config result unique e).0,
      λ all. parse_loop_total [] config all,
    ),
    λ result e key.
        (parse_loop-ok [] config result unique e).1 key
        ∙ (unfold lookup in or_else-none (lookup key config)),
  )
