-- ===== src/Provider/Registry/SignIn.antt =====
-- Where the browser signs in, and which instance the client then calls with the token.
use mkrepo.Base.{String, ◌<>◌, ◌≡◌, ◌≢◌, refl, sym, ap, ◌∙◌, ◌↔◌, ◌⊎◌, inl, inr, Bool-cases}
use mkrepo.Base.{Option, none, some, ◌==◌, eq_iff}
use text.Mathlib.TextLemmas.{append_cancel_right}
use mkrepo.Provider.{Settings, given_url}
use mkrepo.Provider.Gitea.{gitea_url}
use mkrepo.Provider.Registry.{Endpoints, github, gitlab, gitea, oauth2_config}

-- The instance that a client library calls: the one that it is given, or its own.
abbrev pub instance_or : String → Option String → String
instance_or home none = home
instance_or home (some url) = url

-- The page of `a` is that of `b` exactly under the condition on the instances.
on_page :
    {P : Type 0} {page b : String} (path a : String)
    → page ≡ a <> path
    → (a ≡ b) ↔ P
    → (page ≡ b <> path) ↔ P
on_page {b = b} path a made same = (
  λ h. same.0 (append_cancel_right a b path (sym made ∙ h)),
  λ p. made ∙ ap (λ x. x <> path) (same.1 p),
)

instance_iff :
    (home url : String) → (home ≡ instance_or home (given_url url)) ↔ ((url ≡ "") ⊎ (url ≡ home))
instance_iff home url = elim (Bool-cases (url == "")) [
  | inl empty ↦ (λ h. inl ((eq_iff url "").0 empty), λ h. rw empty refl)
  | inr full ↦ (
    λ h. inr (sym (rw full at h)),
    λ h. elim h [
      | inl empty ↦ absurd (let k = (eq_iff url "").1 empty in cc)
      | inr same ↦ rw full (sym same)
    ],
  )
]

gitea_instance_iff : (s : Settings) → (s.provider.url ≡ gitea_url s) ↔ (s.provider.url ≢ "")
gitea_instance_iff s = elim (Bool-cases (s.provider.url == "")) [
  | inl empty ↦
      let same = (eq_iff s.provider.url "").0 empty in
      (
        λ h e. let k : "" ≡ "https://gitea.com" = sym same ∙ rw empty at h in cc,
        λ h. absurd (h same),
      )
  | inr full ↦ (λ h e. let k = (eq_iff s.provider.url "").1 e in cc, λ h. rw full refl)
]

module _ (e : Endpoints) (github_home gitlab_home : String) where
  -- The page that the browser is sent to belongs to the instance that the client calls for GitHub and
  -- GitLab exactly if no URL is configured or that of the public instance, and for Gitea exactly if
  -- one is configured. The endpoints of the oauth2 library are those of the two public instances.
  pub sign_in_iff :
      (s : Settings)
      → e.github.auth_url ≡ github_home <> "/login/oauth/authorize"
      → e.gitlab.auth_url ≡ gitlab_home <> "/oauth/authorize"
      → (((oauth2_config e (github s)).endpoint.auth_url
            ≡ instance_or github_home (given_url s.provider.url) <> "/login/oauth/authorize")
          ↔ ((s.provider.url ≡ "") ⊎ (s.provider.url ≡ github_home)))
        × (((oauth2_config e (gitlab s)).endpoint.auth_url
              ≡ instance_or gitlab_home (given_url s.provider.url) <> "/oauth/authorize")
            ↔ ((s.provider.url ≡ "") ⊎ (s.provider.url ≡ gitlab_home)))
        × (((oauth2_config e (gitea s)).endpoint.auth_url ≡ gitea_url s <> "/login/oauth/authorize")
            ↔ (s.provider.url ≢ ""))
  unfolding oauth2_config
  sign_in_iff s github_page gitlab_page = (
    on_page "/login/oauth/authorize" github_home github_page
        (instance_iff github_home s.provider.url),
    on_page "/oauth/authorize" gitlab_home gitlab_page (instance_iff gitlab_home s.provider.url),
    on_page "/login/oauth/authorize" s.provider.url refl (gitea_instance_iff s),
  )
