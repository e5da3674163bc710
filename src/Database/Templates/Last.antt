-- ===== src/Database/Templates/Last.antt =====
-- What `GetTemplate` returns.
use mathlib.Core.Path.{subst}
use mkrepo.Base.{String, Bool, true, ◌≡◌, refl, ◌⊎◌, inl, inr, ◌↔◌}
use mkrepo.Base.{some, List, [], ◌∷◌, arith, All, Elem, find, only, ok}
use mkrepo.Base.{eq_iff, ok-injective, some-injective, Bool-cases, Option-cases}
use mkrepo.Database.Accounts.{all_at}
use mkrepo.Database.Effects.{find_sound}
use mkrepo.Database.Templates.{
  TemplateVersion, Tables, Postgres, GetTemplateRow, has_full_name, version_of,
}
use mkrepo.Database.Templates.{
  later_version, last_version, versions_of, read_version, read_template, get_template,
}

-- What PostgreSQL documents of a collation: it orders the texts.
pub record IsOrder (leb : String → String → Bool) : Type 0 where
  pub total : (a b : String) → (leb a b ≡ true) ⊎ (leb b a ≡ true)
  pub trans : (a b c : String) → leb a b ≡ true → leb b c ≡ true → leb a c ≡ true

Elem-only_iff :
    {A : Type 0} (p : A → Bool) (x : A) (xs : List A)
    → Elem x (only p xs) ↔ (Elem x xs × (p x ≡ true))
Elem-only_iff p x [] = (λ e. elim e [ ], λ e. elim e.0 [ ])
Elem-only_iff p x (y ∷ ys) = ground (arith, Elem-only_iff p x ys)

module _ (pg : Postgres) (order : IsOrder pg.collate_leb) where
  abbrev pub NotAfter : TemplateVersion → TemplateVersion → Type 0
  NotAfter v w = pg.collate_leb w.version v.version ≡ true

  refl-collate_leb : (a : String) → pg.collate_leb a a ≡ true
  refl-collate_leb a = elim (order.total a a) [ inl h ↦ h | inr h ↦ h ]

  All-NotAfter :
      (v w : TemplateVersion) (vs : List TemplateVersion)
      → pg.collate_leb v.version w.version ≡ true
      → All (NotAfter v) vs
      → All (NotAfter w) vs
  All-NotAfter v w [] h k = tt
  All-NotAfter v w (u ∷ vs) h k =
      (order.trans u.version v.version w.version k.0 h, All-NotAfter v w vs h k.1)

  -- The last version is one of the versions, and none comes after it.
  last_version_lem :
      (vs : List TemplateVersion) {v : TemplateVersion}
      → last_version pg vs ≡ some v
      → Elem v vs × All (NotAfter v) vs
  unfolding last_version later_version
  last_version_lem [] h = cc
  last_version_lem (u ∷ []) {v} h =
      subst (λ x. Elem x (u ∷ []) × All (NotAfter x) (u ∷ [])) (some-injective h)
        (inl refl, (refl-collate_leb u.version, tt))
  last_version_lem (u ∷ w ∷ vs) {v} h =
      let last = later_version pg w (last_version pg vs) in
      let (there, after) = last_version_lem (w ∷ vs) {v = last} refl in
      elim (Bool-cases (pg.collate_leb u.version last.version)) [
        | inl before ↦
            let same : last ≡ v = some-injective (rw before at h) in
            subst (λ x. Elem x (u ∷ w ∷ vs) × All (NotAfter x) (u ∷ w ∷ vs)) same
              (inr there, (before, after))
        | inr not_before ↦
            let same : u ≡ v = some-injective (rw not_before at h) in
            let behind : pg.collate_leb last.version u.version ≡ true =
              elim (order.total u.version last.version) [
                | inl before ↦ cc (before, not_before)
                | inr behind ↦ behind
              ] in
            subst (λ x. Elem x (u ∷ w ∷ vs) × All (NotAfter x) (u ∷ w ∷ vs)) same
              (inl refl, (refl-collate_leb u.version, All-NotAfter last u (w ∷ vs) behind after))
      ]

  -- `GetTemplate` returns the template of the full name with a version of its own, and none of the
  -- template's versions comes after it in the collation. Nothing is changed.
  pub get_template_last :
      (full_name : String) (t t' : Tables) (row : GetTemplateRow)
      → get_template pg full_name t ≡ ok (row, t')
      → Elem row.template t.templates
        × (row.template.full_name ≡ full_name)
        × Elem row.version t.versions
        × (row.version.template_id ≡ row.template.id)
        × ((v : TemplateVersion)
            → Elem v t.versions
            → v.template_id ≡ row.template.id
            → pg.collate_leb v.version row.version.version ≡ true)
        × (t' ≡ t)
  unfolding get_template versions_of read_version read_template
  get_template_last full_name t t' row h =
      elim (Option-cases (find (has_full_name full_name) t.templates)) [
        | inl missing ↦ cc (rw (missing, get_template) at h)
        | inr (template, found) ↦ elim (Option-cases (last_version pg (versions_of t template))) [
          | inl no_version ↦ cc (rw (found, no_version, read_template, get_template) at h)
          | inr (v, last) ↦
              let e = ok-injective (rw (found, last, read_template, get_template) at h) in
              let (there, named) = find_sound (has_full_name full_name) t.templates found in
              let (own, after) = last_version_lem (versions_of t template) last in
              let (elem, of_template) =
                (Elem-only_iff (version_of template.id) v t.versions).0 own in
              subst
                (λ r.
                  Elem r.0.template t.templates
                  × (r.0.template.full_name ≡ full_name)
                  × Elem r.0.version t.versions
                  × (r.0.version.template_id ≡ r.0.template.id)
                  × ((w : TemplateVersion)
                      → Elem w t.versions
                      → w.template_id ≡ r.0.template.id
                      → pg.collate_leb w.version r.0.version.version ≡ true)
                  × (r.1 ≡ t))
                e
                (
                  there,
                  (eq_iff template.full_name full_name).0 named,
                  elem,
                  (eq_iff v.template_id template.id).0 of_template,
                  λ w kept same. all_at (NotAfter v) (versions_of t template) after (
                      (Elem-only_iff (version_of template.id) w t.versions).1
                        (kept, (eq_iff w.template_id template.id).1 same)),
                  refl,
                )
        ]
      ]
