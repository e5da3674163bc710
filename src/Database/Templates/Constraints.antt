-- ===== src/Database/Templates/Constraints.antt =====
-- The constraints of the tables of templates in sql/schema.sql, and the changes of rows that keep them.
use mathlib.Core.Path.{subst}
use mkrepo.Base.{sym, ◌<◌, String, Bool, false, ◌≡◌, refl, ◌≢◌, ap, inl, inr, Option}
use mkrepo.Base.{List, [], ◌∷◌, map, arith, eq_iff, All, Elem, any, update, Bool-cases}
use mkrepo.Database.Unique.{Unique, All-update, All-any, Unique-update}
use mkrepo.Database.Templates.{Template, TemplateVersion, Tables, has_full_name, has_template_id}
use mkrepo.Database.Templates.{
  has_url, same_url, has_version_id, is_version, int_limit, new_template,
}
use mkrepo.Database.Templates.{
  InsertTemplateIfNotExistsParams, InsertTemplateVersionParams, new_version,
}

abbrev pub template_ids : List Template → List String
template_ids = map (λ t. t.id)

-- Two NULLs are not equal, so only URLs that are there differ.
abbrev pub OtherUrl : Template → Template → Type 0
OtherUrl t t' = same_url t'.url t.url ≡ false

abbrev pub UniqueUrls : List Template → Type 0
UniqueUrls [] = Unit
UniqueUrls (t ∷ ts) = All (OtherUrl t) ts × UniqueUrls ts

abbrev pub FitsInt : Template → Type 0
FitsInt t = t.used < int_limit

abbrev pub Owned : List Template → TemplateVersion → Type 0
Owned ts v = Elem v.template_id (template_ids ts)

abbrev pub version_key : TemplateVersion → String × String
version_key v = (v.template_id, v.version)

pub record IsConsistent (t : Tables) : Type 0 where
  pub unique_ids : Unique (λ x. x.id) t.templates
  pub unique_names : Unique (λ x. x.full_name) t.templates
  pub unique_urls : UniqueUrls t.templates
  pub counted : All FitsInt t.templates
  pub unique_version_ids : Unique (λ v. v.id) t.versions
  pub unique_versions : Unique version_key t.versions
  pub owned : All (Owned t.templates) t.versions

-- A change of a template that leaves its keys alone.
pub record KeepsKeys (f : Template → Template) : Type 0 where
  pub id : (t : Template) → (f t).id ≡ t.id
  pub full_name : (t : Template) → (f t).full_name ≡ t.full_name
  pub url : (t : Template) → (f t).url ≡ t.url

module _ (p : Template → Bool) (f : Template → Template) (keeps : KeepsKeys f) where
  ids-update : (ts : List Template) → template_ids (update p f ts) ≡ template_ids ts
  ids-update [] = refl
  ids-update (t ∷ ts) = ground (arith, keeps.id t, ids-update ts)

  UniqueUrls-update : (ts : List Template) → UniqueUrls ts → UniqueUrls (update p f ts)
  UniqueUrls-update [] u = tt
  UniqueUrls-update (t ∷ ts) u = elim (Bool-cases (p t)) [
    | inl hit ↦ rw (hit, keeps.url t) (others, UniqueUrls-update ts u.1)
    | inr miss ↦ rw miss (others, UniqueUrls-update ts u.1)
  ]
    where
      others : All (OtherUrl t) (update p f ts)
      others = All-update (OtherUrl t) p f ts (λ y h. rw (keeps.url y) h) u.0

  -- If the counters still fit, the update of some templates keeps the constraints.
  pub update_templates-IsConsistent :
      (t : Tables)
      → All FitsInt (update p f t.templates)
      → IsConsistent t
      → IsConsistent (record t { templates = update p f t.templates })
  update_templates-IsConsistent t fits c = record {
    unique_ids = Unique-update (λ x. x.id) p f t.templates keeps.id c.unique_ids;
    unique_names = Unique-update (λ x. x.full_name) p f t.templates keeps.full_name c.unique_names;
    unique_urls = UniqueUrls-update t.templates c.unique_urls;
    counted = fits;
    unique_version_ids = c.unique_version_ids;
    unique_versions = c.unique_versions;
    owned =
        subst (λ ids. All (λ v. Elem v.template_id ids) t.versions) (sym (ids-update t.templates))
          c.owned;
  }

All-map :
    {A : Type 0} {P Q : A → Type 0} (xs : List A) → ((x : A) → P x → Q x) → All P xs → All Q xs
All-map [] f h = tt
All-map (x ∷ xs) f h = (f x h.0, All-map xs f h.1)

pub cons_template-IsConsistent :
    (id : String) (arg : InsertTemplateIfNotExistsParams) (t : Tables)
    → any (has_full_name arg.full_name) t.templates ≡ false
    → any (has_template_id id) t.templates ≡ false
    → any (has_url arg.url) t.templates ≡ false
    → IsConsistent t
    → IsConsistent (record t { templates = new_template id arg ∷ t.templates })
cons_template-IsConsistent id arg t no_name no_id no_url c = record {
  unique_ids = (
    All-any (λ y. id ≢ y.id) (has_template_id id) t.templates
        (λ y n e. ground (arith, eq_iff y.id id)) no_id,
    c.unique_ids,
  );
  unique_names = (
    All-any (λ y. arg.full_name ≢ y.full_name) (has_full_name arg.full_name) t.templates
        (λ y n e. ground (arith, eq_iff y.full_name arg.full_name)) no_name,
    c.unique_names,
  );
  unique_urls = (
    All-any (OtherUrl (new_template id arg)) (has_url arg.url) t.templates (λ y n. n) no_url,
    c.unique_urls,
  );
  counted = (omega arith, c.counted);
  unique_version_ids = c.unique_version_ids;
  unique_versions = c.unique_versions;
  owned = All-map t.versions (λ v e. inr e) c.owned;
}

pub cons_version-IsConsistent :
    (id : String) (arg : InsertTemplateVersionParams) (schema : Option String) (template : Template)
    (t : Tables)
    → Elem template.id (template_ids t.templates)
    → any (has_version_id id) t.versions ≡ false
    → any (is_version template.id arg.version) t.versions ≡ false
    → IsConsistent t
    → IsConsistent (record t { versions = new_version id arg schema template.id ∷ t.versions })
cons_version-IsConsistent id arg schema template t there no_id no_version c = record {
  unique_ids = c.unique_ids;
  unique_names = c.unique_names;
  unique_urls = c.unique_urls;
  counted = c.counted;
  unique_version_ids = (
    All-any (λ y. id ≢ y.id) (has_version_id id) t.versions
        (λ y n e. ground (arith, eq_iff y.id id)) no_id,
    c.unique_version_ids,
  );
  unique_versions = (
    All-any (λ y. ◌≢◌ {A = String × String} (template.id, arg.version) (version_key y))
        (is_version template.id arg.version) t.versions
        (λ y n e.
          let p : template.id ≡ y.template_id = ap (λ (k : String × String). k.0) e in
          let q : arg.version ≡ y.version = ap (λ (k : String × String). k.1) e in
          ground (arith, eq_iff y.template_id template.id, eq_iff y.version arg.version))
        no_version,
    c.unique_versions,
  );
  owned = (there, c.owned);
}
