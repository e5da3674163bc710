-- ===== src/Database/Templates/Tests.antt =====
-- Runs of the statements on templates, and their theorems at concrete rows.
use mkrepo.Base.{arith}
use mkrepo.Base.{◌≤◌, true, ◌≡◌, refl, ◌⊎◌, inl, none, some, List, [], ◌∷◌}
use mkrepo.Base.{All, Elem, length, ok, err}
use mkrepo.Base.Int.{negsuc}
use mkrepo.Database.Templates.{
  Template, TemplateVersion, Tables, Postgres, InsertTemplateIfNotExistsParams,
}
use mkrepo.Database.Templates.{
  InsertTemplateVersionParams, insert_template_if_not_exists, insert_template_version,
}
use mkrepo.Database.Templates.{
  increase_template_uses, update_template_stars, set_stars, last_version, versions_of, get_template,
}
use mkrepo.Database.Templates.{check_violation, not_null_violation}
use mkrepo.Database.Templates.Constraints.{IsConsistent}
use mkrepo.Database.Templates.Steps.{here, next, Reach, inserts, inserts_version, counts_use}
use mkrepo.Database.Templates.Last.{IsOrder, get_template_last}
use mkrepo.Database.Templates.Search.{SearchTemplatesRow, search_templates, IsOrdered, NotBetter}
use mkrepo.Database.Templates.Search.Best.{Matches, search_templates_best}

-- A server whose collation tells nothing apart, and whose queries match everything.
abbrev flat : Postgres
flat = record {
  jsonb = λ text. some text;
  collate_leb = λ a b. true;
  tsquery = λ query. some (λ document. true);
}

flat-IsOrder : IsOrder flat.collate_leb
flat-IsOrder = record { total = λ a b. inl refl; trans = λ a b c h k. refl }

abbrev empty : Tables
empty = record { templates = []; versions = [] }

abbrev go_arg : InsertTemplateIfNotExistsParams
go_arg = record { name = "go"; full_name = "go"; url = none; build_in = true }

abbrev version_arg : InsertTemplateVersionParams
version_arg = record {
  description = none;
  language = some "Go";
  version = "1";
  schema = some "{}";
  full_name = "go";
}

abbrev go_template : Template
go_template = record {
  id = "t";
  name = "go";
  full_name = "go";
  url = none;
  build_in = true;
  used = 1;
  stars = 0;
}

abbrev go_version : TemplateVersion
go_version = record {
  id = "v";
  description = none;
  language = some "Go";
  version = "1";
  schema = some "{}";
  template_id = "t";
}

abbrev filled : Tables
filled = record { templates = go_template ∷ []; versions = go_version ∷ [] }

filled_reached : Reach empty filled
unfolding insert_template_if_not_exists insert_template_version increase_template_uses
filled_reached =
    next (next (next here (inserts "t" go_arg refl)) (inserts_version flat "v" version_arg refl))
      (counts_use "go" refl)

empty-IsConsistent : IsConsistent empty
empty-IsConsistent = record {
  unique_ids = tt;
  unique_names = tt;
  unique_urls = tt;
  counted = tt;
  unique_version_ids = tt;
  unique_versions = tt;
  owned = tt;
}

no_template : insert_template_version flat "v" version_arg empty ≡ err not_null_violation
unfolding insert_template_version
no_template = refl

negative_stars :
    update_template_stars "go" (record { value = negsuc 0; fits = omega arith }) filled
    ≡ err check_violation
unfolding update_template_stars set_stars
negative_stars = refl

read_run :
    get_template flat "go" filled
    ≡ ok (record { template = go_template; version = go_version }, filled)
unfolding get_template last_version versions_of
read_run = refl

get_template_last_example :
    Elem go_template filled.templates
    × (go_template.full_name ≡ "go")
    × Elem go_version filled.versions
    × (go_version.template_id ≡ "t")
    × ((v : TemplateVersion)
        → Elem v filled.versions
        → v.template_id ≡ "t"
        → flat.collate_leb v.version "1" ≡ true)
    × (filled ≡ filled)
get_template_last_example =
    get_template_last flat flat-IsOrder "go" filled filled
      (record { template = go_template; version = go_version }) read_run

search_templates_best_example :
    (rows : List SearchTemplatesRow) × (search_templates flat "go" filled ≡ ok (rows, filled))
    × (length rows ≤ 10)
    × IsOrdered rows
    × ((r : SearchTemplatesRow) → Elem r rows → Matches flat (λ document. true) filled r)
    × ((r : SearchTemplatesRow)
        → Matches flat (λ document. true) filled r
        → Elem r rows ⊎ ((length rows ≡ 10) × All (λ s. NotBetter s r) rows))
search_templates_best_example = search_templates_best flat (λ document. true) filled "go" refl
