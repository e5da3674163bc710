-- ===== src/Service/Tests.antt =====
-- Runs of the service, and its theorems at concrete data.
use mkrepo.Base.{
  String, ◌<>◌, ◌≡◌, refl, true, false, none, some, List, [], ◌∷◌, ok, ◌==◌, if◌then◌else◌,
}
use mkrepo.Base.Text.{trim_suffix}
use mkrepo.Service.Gitignore.{DirEntry, Files, prepare_gitignores, gitignore_source}
use mkrepo.Base.{err, ◌⊎◌, ◌↔◌}
use mkrepo.Base.Dict.{lookup}
use mkrepo.Service.License.{License, Licenses}
use mkrepo.Service.License.{add_license}
use mkrepo.Service.License.Laws.{written, AreOf, Succeed, add_license_iff}
use mkrepo.Service.Work.Calls.{Calls}
use mkrepo.Service.Create.Disk.{IsIgnoreOnly, add_files-Calls}
use mkrepo.Base.Int.{pos}
use mkrepo.Provider.{Client, RemoteRepo}
use mkrepo.Service.{CreateRepo, CreateRepoInitialize, create_repo_needs_initialization}
use mkrepo.Service.Work.{World, History, perform, done, deref, deferring, ◌>>=◌}
use mkrepo.Service.Work.{
  create_remote_repo, make_temp, remove_all, write_memory, make_dirs, create_file, copy_file,
}
use mkrepo.Service.Work.{
  plain_init, worktree, add_all, commit, commit_object, create_tag, create_remote, push,
}
use mkrepo.Service.Git.{make_temp_dir, push_repo, pushed}
use mkrepo.Service.Create.{
  MkrepoService, new_service, remote_request, create_remote_repo_by, add_gitignore, add_files,
  initialize_repo, create_new_repo,
}
use mkrepo.Service.Create.Laws.{IsInitialized, create_new_repo-ok}

-- A directory with one gitignore, one other file and one directory.
abbrev root : List DirEntry
root =
    record { name = "Go.gitignore"; is_dir = false }
    ∷ record { name = "README.md"; is_dir = false }
    ∷ record { name = "test"; is_dir = true }
    ∷ []

abbrev files : Files
files = record {
  read_dir = ok root;
  open_file = λ name. if name == "Go.gitignore" then some "bin/" else none;
}

listed_run : prepare_gitignores files ≡ ok ("Go" ∷ "README.md" ∷ [])
unfolding prepare_gitignores trim_suffix
listed_run = refl

-- A world where every call succeeds, a provider that creates every repository, and two requests.
abbrev willing : World
willing = record { succeeds = λ h e. true; temp_name = λ h. "/tmp/mkrepo-1" }

abbrev service : MkrepoService
service = new_service files [] (record {
  built_in = λ path. none;
  cloned = λ dir. [];
  parses = λ path. true;
  join = λ dir path. dir <> "/" <> path;
})

abbrev remote : RemoteRepo
remote = record {
  id = pos 1;
  namespace = "ann";
  name = "site";
  html_url = "https://github.com/ann/site";
  clone_url = "https://github.com/ann/site.git";
}

abbrev client : Client
client = record {
  token = record { access_token = "at"; refresh_token = ""; expiry = 0 };
  get_user = err "no";
  get_posible_repo_owners = record { owners = []; error = none };
  create_remote_repo = λ request. ok remote;
}

abbrev with_files : CreateRepoInitialize
with_files = record {
  author = record { name = "Ann"; email = "a@x" };
  template = none;
  tag = some "v0.0.0";
  readme = some true;
  gitignore = some "Go";
  license = none;
  values = [];
}

abbrev repo : CreateRepo
repo = record {
  name = "site";
  namespace = "";
  description = none;
  visibility = some "public";
  sha256 = none;
  initialize = some with_files;
}

abbrev all_calls : History
all_calls =
    remove_all "/tmp/mkrepo-1"
    ∷ push "at"
    ∷ create_remote "https://github.com/ann/site.git"
    ∷ create_tag "v0.0.0"
    ∷ commit_object
    ∷ commit "Ann" "a@x"
    ∷ add_all
    ∷ worktree
    ∷ plain_init "/tmp/mkrepo-1" false
    ∷ copy_file "/tmp/mkrepo-1/.gitignore"
    ∷ create_file "/tmp/mkrepo-1/.gitignore"
    ∷ make_dirs "/tmp/mkrepo-1"
    ∷ write_memory "README.md"
    ∷ make_temp "/tmp/mkrepo-1"
    ∷ create_remote_repo (remote_request repo "public")
    ∷ []

created_run :
    create_new_repo willing service client repo [] ≡ (ok "https://github.com/ann/site", all_calls)
unfolding create_new_repo create_remote_repo_by initialize_repo add_files add_gitignore
    gitignore_source make_temp_dir push_repo perform done deref deferring ◌>>=◌
    create_repo_needs_initialization
created_run = refl

create_new_repo-ok_example :
    (visibility : String) × (made : RemoteRepo) × (repo.visibility ≡ some visibility)
    × (client.create_remote_repo (remote_request repo visibility) ≡ ok made)
    × ("https://github.com/ann/site" ≡ made.html_url)
    × (((create_repo_needs_initialization repo ≡ false)
          × (all_calls ≡ create_remote_repo (remote_request repo visibility) ∷ []))
        ⊎ ((create_repo_needs_initialization repo ≡ true)
            × IsInitialized willing service repo made "at"
                (create_remote_repo (remote_request repo visibility) ∷ [])
                all_calls))
create_new_repo-ok_example = create_new_repo-ok willing service client repo [] all_calls created_run

abbrev push_calls : History
push_calls = pushed with_files false "/tmp/d" "https://x/r.git" "at" []

push_run : push_repo willing repo "/tmp/d" "https://x/r.git" "at" [] ≡ (ok tt, push_calls)
unfolding push_repo perform done deref ◌>>=◌
push_run = refl

-- Two licenses that name each other.
abbrev cyclic : Licenses
cyclic =
    (
      "agpl",
      record { name = "AGPL"; file = "agpl"; target_file = "LICENSE"; with_licenses = "gpl" ∷ [] },
    )
    ∷ (
      "gpl",
      record { name = "GPL"; file = "gpl"; target_file = "COPYING"; with_licenses = "agpl" ∷ [] },
    )
    ∷ []

abbrev both_written : History
both_written = write_memory "COPYING" ∷ write_memory "LICENSE" ∷ []

add_license_iff_example : (add_license willing cyclic "agpl" [] ≡ (ok tt, both_written)) ↔ (
    (license : License) × (others : List License) × (lookup "agpl" cyclic ≡ some license)
    × AreOf cyclic license.with_licenses others
    × Succeed willing [] (license ∷ others)
    × (both_written ≡ written (license ∷ others) []))
add_license_iff_example = add_license_iff willing cyclic "agpl" [] both_written

cyclic_run : add_license willing cyclic "agpl" [] ≡ (ok tt, both_written)
unfolding add_license lookup perform done ◌>>=◌
cyclic_run = refl

add_files-Calls_example :
    Calls (IsIgnoreOnly "/tmp/mkrepo-1") (add_files willing service repo "/tmp/mkrepo-1")
add_files-Calls_example = add_files-Calls willing service "/tmp/mkrepo-1" repo with_files refl refl
