-- ===== src/Database/Templates/Steps.antt =====
-- The statements on templates as steps, and that no sequence of them breaks a constraint or lets a
-- counter leave its 32 bits.

use mkrepo.Base.{ℕ, String, false, ◌≡◌, refl, ap, inl, inr, Option, none, some}
use mkrepo.Base.{
  List, [], ◌∷◌, arith, All, Elem, any, find, update, Bool-cases, Result-cases, Result, ok, err,
}
use mkrepo.Base.Int.{ℤ, pos, negsuc}
use mkrepo.Database.Effects.{find_sound}
use mkrepo.Database.Templates.{Template, Tables, DbError, Postgres, has_full_name, has_template_id}
use mkrepo.Database.Templates.{has_url, has_version_id, is_version, used_up, use_once, with_stars}
use mkrepo.Database.Templates.{
  InsertTemplateIfNotExistsParams, InsertTemplateVersionParams, stored_json,
}
use mkrepo.Database.Templates.{insert_template_if_not_exists, insert_template_version}
use mkrepo.Database.Templates.{
  increase_template_uses, update_template_stars, put_version, Int32, set_stars,
}
use mkrepo.Database.Templates.Constraints.{
  IsConsistent, FitsInt, template_ids, update_templates-IsConsistent,
}
use mkrepo.Database.Templates.Constraints.{cons_template-IsConsistent, cons_version-IsConsistent}

-- What a successful statement leaves.
abbrev pub Leaves : {A : Type 0} → Result DbError (A × Tables) → Tables → Type 0
Leaves (ok (a, t)) t' = t ≡ t'
Leaves (err e) t' = ⊥

-- One of the statements that write succeeds and leaves the second tables.
pub data Step (t t' : Tables) : Type 0 where
  inserts :
      (id : String) (arg : InsertTemplateIfNotExistsParams)
      → Leaves (insert_template_if_not_exists id arg t) t'
      → Step t t'
  inserts_version :
      (pg : Postgres) (id : String) (arg : InsertTemplateVersionParams)
      → Leaves (insert_template_version pg id arg t) t'
      → Step t t'
  counts_use : (full_name : String) → Leaves (increase_template_uses full_name t) t' → Step t t'
  sets_stars :
      (full_name : String) (stars : Int32)
      → Leaves (update_template_stars full_name stars t) t'
      → Step t t'

insert_template_if_not_exists-IsConsistent :
    (id : String) (arg : InsertTemplateIfNotExistsParams) (t t' : Tables)
    → IsConsistent t
    → Leaves (insert_template_if_not_exists id arg t) t'
    → IsConsistent t'
unfolding insert_template_if_not_exists
insert_template_if_not_exists-IsConsistent id arg t t' c h =
    elim (Bool-cases (any (has_full_name arg.full_name) t.templates)) [
      | inl known ↦ rw (← (rw known at h)) c
      | inr no_name ↦ elim (Bool-cases (any (has_template_id id) t.templates)) [
        | inl taken ↦ absurd (rw (no_name, taken) at h)
        | inr no_id ↦ elim (Bool-cases (any (has_url arg.url) t.templates)) [
          | inl taken ↦ absurd (rw (no_name, no_id, taken) at h)
          | inr no_url ↦
              rw (← (rw (no_name, no_id, no_url) at h))
                (cons_template-IsConsistent id arg t no_name no_id no_url c)
        ]
      ]
    ]

ids_of_Elem : (x : Template) (ts : List Template) → Elem x ts → Elem x.id (template_ids ts)
ids_of_Elem x [] e = elim e [ ]
ids_of_Elem x (t ∷ ts) (inl same) = inl (ap (λ y. y.id) same)
ids_of_Elem x (t ∷ ts) (inr later) = inr (ids_of_Elem x ts later)

put_version-IsConsistent :
    (id : String) (arg : InsertTemplateVersionParams) (schema : Option String) (o : Option Template)
    (t t' : Tables)
    → find (has_full_name arg.full_name) t.templates ≡ o
    → IsConsistent t
    → Leaves (put_version id arg schema o t) t'
    → IsConsistent t'
unfolding put_version
put_version-IsConsistent id arg schema none t t' found c h = absurd h
put_version-IsConsistent id arg schema (some template) t t' found c h =
    elim (Bool-cases (any (has_version_id id) t.versions)) [
      | inl taken ↦ absurd (rw taken at h)
      | inr no_id ↦ elim (Bool-cases (any (is_version template.id arg.version) t.versions)) [
        | inl taken ↦ absurd (rw (no_id, taken) at h)
        | inr no_version ↦ rw (← (rw (no_id, no_version) at h)) (
            cons_version-IsConsistent id arg schema template t
              (ids_of_Elem template t.templates (find_sound _ t.templates found).0) no_id no_version
              c)
      ]
    ]

insert_template_version-IsConsistent :
    (pg : Postgres) (id : String) (arg : InsertTemplateVersionParams) (t t' : Tables)
    → IsConsistent t
    → Leaves (insert_template_version pg id arg t) t'
    → IsConsistent t'
unfolding insert_template_version
insert_template_version-IsConsistent pg id arg t t' c h =
    elim (Result-cases (stored_json pg arg.schema)) [
      | inr (e, bad) ↦ absurd (rw (bad, insert_template_version) at h)
      | inl (schema, good) ↦
          put_version-IsConsistent id arg schema (find (has_full_name arg.full_name) t.templates) t
            t' refl c (rw (good, insert_template_version) at h)
    ]

use_once-FitsInt :
    (full_name : String) (ts : List Template)
    → any (used_up full_name) ts ≡ false
    → All FitsInt ts
    → All FitsInt (update (has_full_name full_name) use_once ts)
use_once-FitsInt full_name [] room h = tt
use_once-FitsInt full_name (t ∷ ts) room h = ground (arith, use_once-FitsInt full_name ts)

with_stars-FitsInt :
    (full_name : String) (n : ℕ) (ts : List Template)
    → All FitsInt ts
    → All FitsInt (update (has_full_name full_name) (with_stars n) ts)
with_stars-FitsInt full_name n [] h = tt
with_stars-FitsInt full_name n (t ∷ ts) h = ground (arith, with_stars-FitsInt full_name n ts)

increase_template_uses-IsConsistent :
    (full_name : String) (t t' : Tables)
    → IsConsistent t
    → Leaves (increase_template_uses full_name t) t'
    → IsConsistent t'
unfolding increase_template_uses
increase_template_uses-IsConsistent full_name t t' c h =
    elim (Bool-cases (any (used_up full_name) t.templates)) [
      | inl over ↦ absurd (rw over at h)
      | inr room ↦ rw (← (rw room at h)) (
          update_templates-IsConsistent (has_full_name full_name) use_once
            (record { id = λ x. refl; full_name = λ x. refl; url = λ x. refl }) t
            (use_once-FitsInt full_name t.templates room c.counted) c)
    ]

set_stars-IsConsistent :
    (full_name : String) (stars : ℤ) (t t' : Tables)
    → IsConsistent t
    → Leaves (set_stars full_name stars t) t'
    → IsConsistent t'
unfolding set_stars
set_stars-IsConsistent full_name (pos n) t t' c h = rw (← h) (
    update_templates-IsConsistent (has_full_name full_name) (with_stars n)
      (record { id = λ x. refl; full_name = λ x. refl; url = λ x. refl }) t
      (with_stars-FitsInt full_name n t.templates c.counted) c)
set_stars-IsConsistent full_name (negsuc n) t t' c h =
    elim (Bool-cases (any (has_full_name full_name) t.templates)) [
      | inl there ↦ absurd (rw there at h)
      | inr missing ↦ rw (← (rw missing at h)) c
    ]

Step-IsConsistent : {t t' : Tables} → Step t t' → IsConsistent t → IsConsistent t'
Step-IsConsistent {t} {t'} (inserts id arg h) c =
    insert_template_if_not_exists-IsConsistent id arg t t' c h
Step-IsConsistent {t} {t'} (inserts_version pg id arg h) c =
    insert_template_version-IsConsistent pg id arg t t' c h
Step-IsConsistent {t} {t'} (counts_use full_name h) c =
    increase_template_uses-IsConsistent full_name t t' c h
Step-IsConsistent {t} {t'} (sets_stars full_name stars h) c =
    unfold update_template_stars in set_stars-IsConsistent full_name stars.value t t' c h

pub data Reach (s : Tables) : Tables → Type 0 where
  here : Reach s s
  next : {t u : Tables} → Reach s t → Step t u → Reach s u

-- No sequence of successful statements on templates breaks a constraint of the schema: full names,
-- URLs and versions stay unique, every version keeps its template, and no counter of uses reaches the
-- limit of its 32 bits.
pub Reach-templates-IsConsistent : {s t : Tables} → Reach s t → IsConsistent s → IsConsistent t
Reach-templates-IsConsistent here c = c
Reach-templates-IsConsistent (next r st) c = Step-IsConsistent st (Reach-templates-IsConsistent r c)
