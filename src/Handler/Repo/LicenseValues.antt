-- ===== src/Handler/Repo/LicenseValues.antt =====
-- The values that `CreateRepoFromForm` collects for the license.
use mathlib.Core.Path.{subst}
use mkrepo.Base.{
  or_else, or_else-none, String, ◌<>◌, ◌≡◌, refl, ◌≢◌, ◌∙◌, false, Option, none, some, List, [],
  ◌∷◌, ◌==◌,
}
use mkrepo.Base.{inl, inr, arith, eq_iff, eq_refl, Bool-cases, Option-cases}
use mkrepo.Base.Dict.{Dict, Distinct, lookup, lookup-insert}
use mkrepo.Base.Text.{
  cut_prefix, cut_prefix-append, append_of_cut_prefix, trim_prefix-cut_prefix,
  has_prefix-cut_prefix,
}
use mkrepo.Handler.Repo.{first_given, put, license_values_loop}

abbrev pub license_prefix : String
license_prefix = "license-"

-- The first value of a form's key, if it is there and not empty.
abbrev pub given_value : Option (List String) → Option String
given_value none = none
given_value (some vals) = first_given vals

put_same :
    (k : String) (value : Option String) (values : Dict String)
    → lookup k (put (license_prefix <> k) value values) ≡ or_else value (lookup k values)
unfolding put
put_same k none values = refl
put_same k (some value) values =
    let (found, rest) =
      trim_prefix-cut_prefix (license_prefix <> k) license_prefix
        (cut_prefix-append license_prefix k) in
    rw (found, rest, lookup-insert k k value values, eq_refl k)

put_other :
    (k key : String) (value : Option String) (values : Dict String)
    → key ≢ license_prefix <> k
    → lookup k (put key value values) ≡ lookup k values
unfolding put
put_other k key none values other = refl
put_other k key (some value) values other = elim (Option-cases (cut_prefix key license_prefix)) [
  | inl missing ↦ rw (has_prefix-cut_prefix key license_prefix missing)
  | inr (rest, cut) ↦
      let different : (rest == k) ≡ false =
        ground (arith, eq_iff rest k, append_of_cut_prefix key license_prefix cut) in
      let (found, trimmed) = trim_prefix-cut_prefix key license_prefix cut in
      rw (found, trimmed, lookup-insert rest k value values, different)
]

loop_lem :
    (k : String) (form : Dict (List String)) (values : Dict String)
    → Distinct form
    → lookup k (license_values_loop values form)
      ≡ or_else (given_value (lookup (license_prefix <> k) form)) (lookup k values)
unfolding license_values_loop
loop_lem k [] values d = unfold lookup in refl
loop_lem k ((key, vals) ∷ form) values d = elim (Bool-cases (key == license_prefix <> k)) [
  | inl same ↦
      let named : key ≡ license_prefix <> k = (eq_iff key (license_prefix <> k)).0 same in
      let rest : lookup (license_prefix <> k) form ≡ none =
        subst (λ j. lookup j form ≡ none) named d.0 in
      loop_lem k form (put key (first_given vals) values) d.1
      ∙ rw (rest, named) (unfold lookup in rw eq_refl (put_same k (first_given vals) values))
  | inr other ↦
      let different : key ≢ license_prefix <> k =
        λ e. cc ((eq_iff key (license_prefix <> k)).1 e, other) in
      loop_lem k form (put key (first_given vals) values) d.1
      ∙ unfold lookup in rw (put_other k key (first_given vals) values different, other) refl
]

-- For a form with no key twice, the values of the license are those of the form's keys that begin
-- with "license-", each under the rest of its key, with the first value of the key, and without
-- those that are missing or empty.
pub lookup-license_values_loop :
    (k : String) (form : Dict (List String))
    → Distinct form
    → lookup k (license_values_loop [] form) ≡ given_value (lookup (license_prefix <> k) form)
lookup-license_values_loop k form d = loop_lem k form [] d ∙ (unfold lookup in or_else-none _)
