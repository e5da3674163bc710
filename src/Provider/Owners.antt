-- ===== src/Provider/Owners.antt =====
-- The owners that a user may choose from: what the loops collect, and that a namespace that is
-- offered is one that the provider accepts.
use mkrepo.Base.{String, ◌≡◌, refl, ◌⊎◌, inl, inr, true, false, none, some, List, []}
use mkrepo.Base.{
  ◌∷◌, ◌++◌, map, ◌==◌, arith, eq_iff, All, only, Bool, ◌||◌, Result, ok, err, ◌∙◌, if◌then◌else◌,
}
use mkrepo.Base.Int.{ℤ, IsInt64, format_int, parse_int-format_int, format_int-ne}
use mkrepo.Provider.{RepoOwner}
use mkrepo.Base.{Result-cases, Bool-cases, sym}
use mathlib.Core.List.{append_assoc, append-nil}
use mkrepo.Provider.Github
use mkrepo.Provider.Github.{GithubApi, add_org, github_owners_loop, github_owners}
use mkrepo.Provider.Gitlab
use mkrepo.Provider.Gitlab.{GitlabApi, Group, group_owner, namespace_id, gitlab_owners}
use mkrepo.Provider.Gitlab.{gitlab_owners_loop}

module _ (api : GithubApi) where
  -- The owner stands for an organization in which the user may create repositories: every member
  -- may, or the user is an admin of it.
  abbrev pub MayCreate : RepoOwner → Type 0
  MayCreate o =
      (org : Github.Organization) × (login : String) × (o ≡ Github.org_owner org)
      × (api.organizations_get login ≡ ok org)
      × ((org.members_can_create_repos ≡ true) ⊎ (api.get_org_membership org.login ≡ ok "admin"))

  add_org_of_role :
      (owners : List RepoOwner) (login : String) (org : Github.Organization)
      (role : Result String String) {more : List RepoOwner}
      → api.organizations_get login ≡ ok org
      → api.get_org_membership org.login ≡ role
      → add_org api owners login ≡ ok more
      → (more ≡ owners)
        ⊎ ((more ≡ owners ++ (Github.org_owner org ∷ []))
            × ((org.members_can_create_repos ≡ true) ⊎ (role ≡ ok "admin")))
  unfolding add_org
  add_org_of_role owners login org (err e) found membership h = ground arith
  add_org_of_role owners login org (ok role) found membership h =
      ground (arith, eq_iff role "admin")

  add_org-MayCreate :
      (owners : List RepoOwner) (login : String) {more : List RepoOwner}
      → add_org api owners login ≡ ok more
      → (more ≡ owners) ⊎ ((o : RepoOwner) × (more ≡ owners ++ (o ∷ [])) × MayCreate o)
  add_org-MayCreate owners login {more} h = elim (Result-cases (api.organizations_get login)) [
    | inr (e, failed) ↦ unfold add_org in cc (rw (failed, add_org) at h)
    | inl (org, found) ↦ elim (add_org_of_role owners login org _ found refl h) [
      | inl same ↦ inl same
      | inr (grown, granted) ↦ inr (Github.org_owner org, grown, (org, login, refl, found, granted))
    ]
  ]

  loop_of_ok :
      (owners more : List RepoOwner) (login : String) (orgs : List String)
      → add_org api owners login ≡ ok more
      → github_owners_loop api owners (login ∷ orgs) ≡ github_owners_loop api more orgs
  unfolding github_owners_loop
  loop_of_ok owners more login orgs h = rw (h, github_owners_loop)

  loop_of_err :
      (owners : List RepoOwner) (login : String) (orgs : List String) {e : String}
      → add_org api owners login ≡ err e
      → github_owners_loop api owners (login ∷ orgs) ≡ record { owners = owners; error = some e }
  unfolding github_owners_loop
  loop_of_err owners login orgs h = rw (h, github_owners_loop)

  loop-MayCreate :
      (owners : List RepoOwner) (orgs : List String)
      → (rest : List RepoOwner) × ((github_owners_loop api owners orgs).owners ≡ owners ++ rest)
        × All MayCreate rest
  loop-MayCreate owners [] = ([], unfold github_owners_loop in sym (append-nil owners), tt)
  loop-MayCreate owners (login ∷ orgs) = elim (Result-cases (add_org api owners login)) [
    | inr (e, failed) ↦
        ([], rw (loop_of_err owners login orgs failed) (sym (append-nil owners)), tt)
    | inl (more, added) ↦
        let (rest, split, all) = loop-MayCreate more orgs in
        let step = loop_of_ok owners more login orgs added in
        elim (add_org-MayCreate owners login added) [
          | inl same ↦ (rest, rw (step, split, same), all)
          | inr (o, grown, may) ↦ (o ∷ rest, rw (step, split, grown, append_assoc), (may, all))
        ]
  ]

  -- Whatever the calls answer and wherever the search ends, each owner behind the first is an
  -- organization in which the user may create repositories.
  pub github_owners-MayCreate :
      (u : Github.GithubUser)
      → api.users_get ≡ ok u
      → (rest : List RepoOwner) × ((github_owners api).owners ≡ Github.user_owner u ∷ rest)
        × All MayCreate rest
  unfolding github_owners
  github_owners-MayCreate u h = elim (Result-cases api.organizations_list) [
    | inl (orgs, listed) ↦ rw (h, listed) (loop-MayCreate (Github.user_owner u ∷ []) orgs)
    | inr (e, failed) ↦ ([], rw (h, failed), tt)
  ]

-- The organizations are asked one after the other: what the list names, the two other calls know.
module _ (api : GithubApi) (org_of : String → Github.Organization) (role_of : String → String) where
  abbrev pub may_create : Github.Organization → Bool
  may_create org = org.members_can_create_repos || role_of org.login == "admin"

  -- The calls that are made for a login of the list are answered: that for the organization and, unless
  -- every member may create repositories, that for the membership.
  pub record IsAnswered (login : String) : Type 0 where
    pub known : api.organizations_get login ≡ ok (org_of login)
    pub member :
        (org_of login).members_can_create_repos ≡ false
        → api.get_org_membership (org_of login).login ≡ ok (role_of (org_of login).login)

  add_org_known :
      (owners : List RepoOwner) (login : String)
      → IsAnswered login
      → add_org api owners login
        ≡ ok (
            if may_create (org_of login)
            then owners ++ (Github.org_owner (org_of login) ∷ [])
            else owners)
  unfolding add_org
  add_org_known owners login a = elim (Bool-cases (org_of login).members_can_create_repos) [
    | inl may ↦ rw (a.known, may, add_org) refl
    | inr asked ↦ rw (a.known, asked, add_org, a.member asked) (ground arith)
  ]

  loop-eq-only :
      (owners : List RepoOwner) (orgs : List String)
      → All IsAnswered orgs
      → github_owners_loop api owners orgs ≡ record {
        owners = owners ++ map Github.org_owner (only may_create (map org_of orgs));
        error = none;
      }
  loop-eq-only owners [] all = unfold github_owners_loop in rw append-nil
  loop-eq-only owners (login ∷ orgs) (a, all) = elim (Bool-cases (may_create (org_of login))) [
    | inl may ↦
        let more = owners ++ (Github.org_owner (org_of login) ∷ []) in
        loop_of_ok api owners more login orgs (add_org_known owners login a ∙ rw may)
        ∙ loop-eq-only more orgs all
        ∙ rw (may, append_assoc)
    | inr may_not ↦
        loop_of_ok api owners owners login orgs (add_org_known owners login a ∙ rw may_not)
        ∙ loop-eq-only owners orgs all
        ∙ rw may_not
  ]

  -- Where the user and the one page of organizations are answered, and the calls that are made about
  -- each of these organizations, the owners are the user and, in the order of the list, exactly the
  -- organizations in which the user may create repositories.
  pub github_owners_lem :
      (u : Github.GithubUser) (orgs : List String)
      → api.users_get ≡ ok u
      → api.organizations_list ≡ ok orgs
      → All IsAnswered orgs
      → github_owners api ≡ record {
        owners = Github.user_owner u ∷ map Github.org_owner (only may_create (map org_of orgs));
        error = none;
      }
  unfolding github_owners
  github_owners_lem u orgs h listed all =
      rw (h, listed) (loop-eq-only (Github.user_owner u ∷ []) orgs all)

namespace_id-format_int : (id : ℤ) → IsInt64 id → namespace_id (format_int id) ≡ ok (some id)
unfolding namespace_id
namespace_id-format_int id h =
    ground (arith, eq_iff (format_int id) "", format_int-ne id, parse_int-format_int id h)

All-group_owner :
    (groups : List Group)
    → All (λ g. IsInt64 g.id) groups
    → All (λ g. namespace_id (group_owner g).namespace ≡ ok (some g.id)) groups
All-group_owner [] h = tt
All-group_owner (g ∷ groups) (h, hs) = (namespace_id-format_int g.id h, All-group_owner groups hs)

module _ (api : GitlabApi) where
  loop-eq-map :
      (owners : List RepoOwner) (groups : List Group)
      → gitlab_owners_loop api owners groups ≡ owners ++ map group_owner groups
  unfolding gitlab_owners_loop
  loop-eq-map owners [] = sym (append-nil owners)
  loop-eq-map owners (g ∷ groups) =
      loop-eq-map (owners ++ (group_owner g ∷ [])) groups ∙ rw append_assoc

  -- Where the calls are answered and the numbers fit 64 bits, GitLab offers the user and every group
  -- of the one page that is asked for, and the namespace of each is accepted when a repository is created: none for the user,
  -- the group's own number for a group.
  pub gitlab_owners-namespace_id :
      (u : Gitlab.GitlabUser) (groups : List Group)
      → api.current_user ≡ ok u
      → api.list_groups ≡ ok groups
      → All (λ g. IsInt64 g.id) groups
      → (gitlab_owners api
          ≡ record { owners = Gitlab.user_owner u ∷ map group_owner groups; error = none })
        × (namespace_id (Gitlab.user_owner u).namespace ≡ ok none)
        × All (λ g. namespace_id (group_owner g).namespace ≡ ok (some g.id)) groups
  unfolding gitlab_owners
  gitlab_owners-namespace_id u groups h listed ids =
      (rw (h, listed, loop-eq-map), unfold namespace_id in refl, All-group_owner groups ids)
