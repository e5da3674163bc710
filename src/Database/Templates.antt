-- ===== src/Database/Templates.antt =====
-- internal/gen/database/models.go, sql/schema.sql and internal/gen/database/query.sql.go: the tables
-- `template` and `template_version` and their statements. Nothing in the program calls them at
-- present. They share no constraint with the other tables, and so are a state of their own. An
-- `int` of PostgreSQL has 32 bits; a counter that would leave them fails.
pub mod Constraints
pub mod Steps
pub mod Search
pub mod Last
mod Tests
use mkrepo.Base.{◌<◌}
use mkrepo.Base.{
  ℕ, ◌+◌, String, ◌<>◌, Bool, true, false, ◌&&◌, not, Option, none, some, List, [], ◌∷◌, ◌++◌, map,
}
use mkrepo.Base.{◌==◌, if◌then◌else◌, any, find, only, update, ltb, Result, ok, err}
use mkrepo.Base.Int.{ℤ, pos, negsuc}

pub record Template : Type 0 where
  pub id : String
  pub name : String
  pub full_name : String
  pub url : Option String
  pub build_in : Bool
  pub used : ℕ
  pub stars : ℕ

pub record TemplateVersion : Type 0 where
  pub id : String
  pub description : Option String
  pub language : Option String
  pub version : String
  pub schema : Option String
  pub template_id : String

pub record Tables : Type 0 where
  pub templates : List Template
  pub versions : List TemplateVersion

pub data DbError : Type 0 where
  unique_violation not_null_violation check_violation out_of_range : DbError
  invalid_json invalid_query no_rows : DbError

abbrev pub Statement : Type 0 → Type 0
Statement A = Tables → Result DbError (A × Tables)

-- What the statements use of PostgreSQL: the `jsonb` that a text is stored as, the order of texts in
-- the database's collation, and the documents that a text search query matches.
pub record Postgres : Type 0 where
  pub jsonb : String → Option String
  pub collate_leb : String → String → Bool
  pub tsquery : String → Option (String → Bool)

abbrev pub int_limit : ℕ
int_limit = 2_147_483_648

abbrev pub has_full_name : String → Template → Bool
has_full_name full_name t = t.full_name == full_name

abbrev pub has_template_id : String → Template → Bool
has_template_id id t = t.id == id

abbrev pub same_url : Option String → Option String → Bool
same_url none other = false
same_url (some u) none = false
same_url (some u) (some v) = u == v

abbrev pub has_url : Option String → Template → Bool
has_url url t = same_url t.url url

abbrev pub has_version_id : String → TemplateVersion → Bool
has_version_id id v = v.id == id

abbrev pub version_of : String → TemplateVersion → Bool
version_of template_id v = v.template_id == template_id

abbrev pub is_version : String → String → TemplateVersion → Bool
is_version template_id version v = v.template_id == template_id && v.version == version

pub record InsertTemplateIfNotExistsParams : Type 0 where
  pub name : String
  pub full_name : String
  pub url : Option String
  pub build_in : Bool

abbrev pub new_template : String → InsertTemplateIfNotExistsParams → Template
new_template id arg = record {
  id = id;
  name = arg.name;
  full_name = arg.full_name;
  url = arg.url;
  build_in = arg.build_in;
  used = 0;
  stars = 0;
}

-- `id` is what `gen_random_uuid()` returns.
unfoldable pub insert_template_if_not_exists :
    String → InsertTemplateIfNotExistsParams → Statement Unit
insert_template_if_not_exists id arg t =
    if any (has_full_name arg.full_name) t.templates
    then ok (tt, t)
    else if any (has_template_id id) t.templates
    then err unique_violation
    else if any (has_url arg.url) t.templates
    then err unique_violation
    else ok (tt, record t { templates = new_template id arg ∷ t.templates })

pub record InsertTemplateVersionParams : Type 0 where
  pub description : Option String
  pub language : Option String
  pub version : String
  pub schema : Option String
  pub full_name : String

abbrev pub new_version :
    String → InsertTemplateVersionParams → Option String → String → TemplateVersion
new_version id arg schema template_id = record {
  id = id;
  description = arg.description;
  language = arg.language;
  version = arg.version;
  schema = schema;
  template_id = template_id;
}

-- The column's value: NULL stays, and a text is parsed.
abbrev pub stored_json : Postgres → Option String → Result DbError (Option String)
stored_json pg none = ok none
stored_json pg (some text) = elim (pg.jsonb text) [
  | none ↦ err invalid_json
  | some value ↦ ok (some value)
]

put_version :
    String → InsertTemplateVersionParams → Option String → Option Template → Statement Unit
put_version id arg schema none t = err not_null_violation
put_version id arg schema (some template) t =
    if any (has_version_id id) t.versions
    then err unique_violation
    else if any (is_version template.id arg.version) t.versions
    then err unique_violation
    else ok (tt, record t { versions = new_version id arg schema template.id ∷ t.versions })

parsed_version :
    String → InsertTemplateVersionParams → Result DbError (Option String) → Statement Unit
unfolding put_version
parsed_version id arg (err e) t = err e
parsed_version id arg (ok schema) t =
    put_version id arg schema (find (has_full_name arg.full_name) t.templates) t

-- `id` is what `uuidv7()` returns.
unfoldable pub insert_template_version :
    Postgres → String → InsertTemplateVersionParams → Statement Unit
unfolding parsed_version
insert_template_version pg id arg t = parsed_version id arg (stored_json pg arg.schema) t

-- `used = used + 1`
abbrev pub use_once : Template → Template
use_once t = record t { used = t.used + 1 }

abbrev pub used_up : String → Template → Bool
used_up full_name t = has_full_name full_name t && not (ltb (t.used + 1) int_limit)

unfoldable pub increase_template_uses : String → Statement Unit
increase_template_uses full_name t =
    if any (used_up full_name) t.templates
    then err out_of_range
    else ok (tt, record t { templates = update (has_full_name full_name) use_once t.templates })

abbrev pub with_stars : ℕ → Template → Template
with_stars n t = record t { stars = n }

-- An `int32` of Go.
abbrev pub IsInt32 : ℤ → Type 0
IsInt32 (pos n) = n < int_limit
IsInt32 (negsuc n) = n < int_limit

pub record Int32 : Type 0 where
  pub value : ℤ
  pub fits : IsInt32 value

-- `CHECK (stars >= 0)` is tested on the rows that are updated.
unfoldable pub set_stars : String → ℤ → Statement Unit
set_stars full_name (pos n) t =
    ok (tt, record t { templates = update (has_full_name full_name) (with_stars n) t.templates })
set_stars full_name (negsuc n) t =
    if any (has_full_name full_name) t.templates then err check_violation else ok (tt, t)

unfoldable pub update_template_stars : String → Int32 → Statement Unit
unfolding set_stars
update_template_stars full_name stars = set_stars full_name stars.value

-- The version that comes last in the collation: `ORDER BY version DESC LIMIT 1`.
later_version : Postgres → TemplateVersion → Option TemplateVersion → TemplateVersion
later_version pg v none = v
later_version pg v (some w) = if pg.collate_leb v.version w.version then w else v

unfoldable pub last_version : Postgres → List TemplateVersion → Option TemplateVersion
unfolding later_version
last_version pg [] = none
last_version pg (v ∷ versions) = some (later_version pg v (last_version pg versions))

pub record GetTemplateRow : Type 0 where
  pub template : Template
  pub version : TemplateVersion

unfoldable pub versions_of : Tables → Template → List TemplateVersion
versions_of t template = only (version_of template.id) t.versions

read_version : Template → Option TemplateVersion → Tables → Result DbError (GetTemplateRow × Tables)
read_version template none t = err no_rows
read_version template (some v) t = ok (record { template = template; version = v }, t)

read_template : Postgres → Option Template → Tables → Result DbError (GetTemplateRow × Tables)
unfolding read_version
read_template pg none t = err no_rows
read_template pg (some template) t =
    read_version template (last_version pg (versions_of t template)) t

-- The full name is unique, so the join has the versions of one template. The row is given by the
-- two rows that it joins, of which the query selects nine columns.
unfoldable pub get_template : Postgres → String → Statement GetTemplateRow
unfolding read_template
get_template pg full_name t = read_template pg (find (has_full_name full_name) t.templates) t
