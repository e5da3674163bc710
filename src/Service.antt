-- ===== src/Service.antt =====
-- internal/service/types.go: the request of a new repository. A pointer that may be nil is an
-- `Option`, and a nil map is an empty one.
pub mod Gitignore
pub mod Work
pub mod Git
pub mod License
pub mod Create
pub mod Template
pub mod Context
mod Tests
use mkrepo.Base.{String, Bool, true, false, ◌||◌, Option, none, some, is_set}
use mkrepo.Base.Dict.{Dict}

abbrev pub private : String
private = "private"

abbrev pub public : String
public = "public"

pub record CreateRepoInitializeAuthor : Type 0 where
  pub name : String
  pub email : String

pub record CreateRepoTemplate : Type 0 where
  pub full_name : String

-- What the program puts into a `map[string]any`.
pub data Value : Type 0 where
  strings : Dict String → Value

pub record CreateRepoInitialize : Type 0 where
  pub author : CreateRepoInitializeAuthor
  pub template : Option CreateRepoTemplate
  pub tag : Option String
  pub readme : Option Bool
  pub gitignore : Option String
  pub license : Option String
  pub values : Dict Value

pub record CreateRepo : Type 0 where
  pub name : String
  pub namespace : String
  pub description : Option String
  pub visibility : Option String
  pub sha256 : Option Bool
  pub initialize : Option CreateRepoInitialize

-- `p != nil && *p`
abbrev pub is_true : Option Bool → Bool
is_true none = false
is_true (some b) = b

abbrev needs : Option CreateRepoInitialize → Bool
needs none = false
needs (some init) =
    is_set init.template || is_true init.readme || is_set init.gitignore || is_set init.license

unfoldable pub create_repo_needs_initialization : CreateRepo → Bool
create_repo_needs_initialization repo = needs repo.initialize
