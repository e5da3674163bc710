-- ===== src/Provider/Registry/Laws.antt =====
-- What the map of the providers holds for a valid configuration, and where the providers send
-- the browser back to.
use mkrepo.Base.{
  String, ◌<>◌, ◌≡◌, refl, ◌∙◌, sym, ap, ◌↔◌, eq_refl, ◌≢◌, ◌⊎◌, inl, inr, Option, none, some,
}
use mkrepo.Base.{List, [], ◌∷◌, arith, eq_iff, All, Elem}
use mathlib.Core.Path.{subst}
use mathlib.Core.Option.{some-injective}
use text.Mathlib.TextLemmas.{append_cancel_left}
use mkrepo.Base.Dict.{lookup, lookup-insert}
use mkrepo.Config
use mkrepo.Config.{Config, github_provider, gitlab_provider, gitea_provider}
use mkrepo.Config.Validation.{IsProviderType, IsUsable, Distinct, keys, IsValid}
use mkrepo.Provider.Github.{new_github_from_config}
use mkrepo.Provider.Gitlab.{new_gitlab_from_config}
use mkrepo.Provider.Gitea.{new_gitea_from_config}
use mkrepo.Provider.Registry.{Provider, github, gitlab, gitea, Providers, key, name, construct}
use mkrepo.Provider.Registry.{put, new_providers_loop, new_providers_from_config, settings}
use mkrepo.Provider.Registry.{Endpoints, oauth2_config}

-- The type in the configuration that a provider stands for.
abbrev pub type_of : Provider → String
type_of (github s) = github_provider
type_of (gitlab s) = gitlab_provider
type_of (gitea s) = gitea_provider

-- The provider was made from this entry of the configuration.
pub record MadeFrom (cfg : Config) (p : Config.Provider) (pr : Provider) : Type 0 where
  pub same_key : key pr ≡ p.key
  pub same_type : type_of pr ≡ p.type
  pub same_client_id : (settings pr).provider.client_id ≡ p.client_id
  pub same_client_secret : (settings pr).provider.client_secret ≡ p.client_secret
  pub same_config : (settings pr).config ≡ cfg
  pub named : name pr ≢ ""

construct-MadeFrom :
    (cfg : Config) (p : Config.Provider)
    → IsProviderType p.type
    → (pr : Provider) × (construct cfg p ≡ some pr) × MadeFrom cfg p pr
unfolding construct key name new_github_from_config new_gitlab_from_config new_gitea_from_config
construct-MadeFrom cfg p (inl t) = (
  github (new_github_from_config cfg p),
  ground (arith, eq_iff p.type github_provider),
  ground (arith, eq_iff p.name "", eq_iff "GitHub" ""),
)
construct-MadeFrom cfg p (inr (inl t)) = (
  gitlab (new_gitlab_from_config cfg p),
  ground (
    arith,
    eq_iff p.type github_provider,
    eq_iff p.type gitlab_provider,
    eq_iff github_provider gitlab_provider,
  ),
  ground (arith, eq_iff p.name "", eq_iff "GitLab" ""),
)
construct-MadeFrom cfg p (inr (inr t)) = (
  gitea (new_gitea_from_config cfg p),
  ground (
    arith,
    eq_iff p.type github_provider,
    eq_iff p.type gitlab_provider,
    eq_iff p.type gitea_provider,
    eq_iff gitea_provider gitlab_provider,
    eq_iff gitea_provider github_provider,
  ),
  ground (arith, eq_iff p.name "", eq_iff "Gitea" ""),
)

lookup-put_of_ne :
    (k j : String) (o : Option Provider) (providers : Providers)
    → k ≢ j
    → lookup k (put j o providers) ≡ lookup k providers
lookup-put_of_ne k j none providers h = refl
lookup-put_of_ne k j (some pr) providers h =
    lookup-insert j k pr providers ∙ ground (arith, eq_iff j k)

-- The loop leaves a key alone that no entry has.
lookup-loop_of_absent :
    (cfg : Config) (k : String) (providers : Providers) (ps : List Config.Provider)
    → All (λ j. k ≢ j) (keys ps)
    → lookup k (new_providers_loop cfg providers ps) ≡ lookup k providers
unfolding new_providers_loop
lookup-loop_of_absent cfg k providers [] h = refl
lookup-loop_of_absent cfg k providers (p ∷ ps) h =
    lookup-loop_of_absent cfg k (put p.key (construct cfg p) providers) ps h.1
    ∙ lookup-put_of_ne k p.key (construct cfg p) providers h.0

lookup-loop :
    (cfg : Config) (p : Config.Provider) (providers : Providers) (ps : List Config.Provider)
    → Elem p ps
    → Distinct (keys ps)
    → {pr : Provider} → construct cfg p ≡ some pr
    → lookup p.key (new_providers_loop cfg providers ps) ≡ some pr
unfolding new_providers_loop
lookup-loop cfg p providers [] e d made = elim e [ ]
lookup-loop cfg p providers (q ∷ ps) (inl same) d {pr} made = rw (← same) (
    lookup-loop_of_absent cfg p.key (put p.key (construct cfg p) providers) ps
      (subst (λ r. All (λ j. r.key ≢ j) (keys ps)) (sym same) d.0)
    ∙ rw made (lookup-insert p.key p.key pr providers ∙ rw eq_refl))
lookup-loop cfg p providers (q ∷ ps) (inr later) d made =
    lookup-loop cfg p (put q.key (construct cfg q) providers) ps later d.1 made

IsUsable-Elem :
    (p : Config.Provider) (ps : List Config.Provider) → Elem p ps → All IsUsable ps → IsUsable p
IsUsable-Elem p [] e u = elim e [ ]
IsUsable-Elem p (q ∷ ps) (inl same) u = subst IsUsable (sym same) u.0
IsUsable-Elem p (q ∷ ps) (inr later) u = IsUsable-Elem p ps later u.1

-- For a valid configuration every entry is found under its key, made from that very entry, and
-- has a name to show.
pub lookup-new_providers :
    (cfg : Config) (p : Config.Provider)
    → IsValid cfg
    → Elem p cfg.providers
    → (pr : Provider) × (lookup p.key (new_providers_from_config cfg) ≡ some pr) × MadeFrom cfg p pr
unfolding new_providers_from_config
lookup-new_providers cfg p v e =
    let (pr, made, from) = construct-MadeFrom cfg p (IsUsable-Elem p _ e v.usable).known_type in
    (pr, lookup-loop cfg p [] cfg.providers e v.distinct_keys made, from)

lookup-put :
    (k j : String) (o : Option Provider) (providers : Providers) {pr : Provider}
    → lookup k (put j o providers) ≡ some pr
    → (lookup k providers ≡ some pr) ⊎ ((j ≡ k) × (o ≡ some pr))
lookup-put k j none providers h = inl h
lookup-put k j (some pr) providers h = ground (arith, lookup-insert j k pr providers, eq_iff j k)

-- A provider that is found under a key comes from an entry with that key, or was there before.
loop-comes_from :
    (cfg : Config) (k : String) (providers : Providers) (ps : List Config.Provider) (pr : Provider)
    → lookup k (new_providers_loop cfg providers ps) ≡ some pr
    → (lookup k providers ≡ some pr)
      ⊎ ((p : Config.Provider) × Elem p ps × (p.key ≡ k) × (construct cfg p ≡ some pr))
unfolding new_providers_loop
loop-comes_from cfg k providers [] pr h = inl h
loop-comes_from cfg k providers (p ∷ ps) pr h =
    elim (loop-comes_from cfg k (put p.key (construct cfg p) providers) ps pr h) [
      | inl before ↦ elim (lookup-put k p.key (construct cfg p) providers before) [
        | inl older ↦ inl older
        | inr (same, made) ↦ inr (p, inl refl, same, made)
      ]
      | inr (q, e, same, made) ↦ inr (q, inr e, same, made)
    ]

-- For a valid configuration a provider is found under a key only if an entry has that key, and
-- it was made from that entry.
pub lookup-new_providers_only :
    (cfg : Config) (k : String) (pr : Provider)
    → IsValid cfg
    → lookup k (new_providers_from_config cfg) ≡ some pr
    → (p : Config.Provider) × Elem p cfg.providers × (p.key ≡ k) × MadeFrom cfg p pr
unfolding new_providers_from_config
lookup-new_providers_only cfg k pr v h = elim (loop-comes_from cfg k [] cfg.providers pr h) [
  | inl before ↦ absurd (lookup_nil before)
  | inr (p, e, same, made) ↦
      let (qr, made', from) = construct-MadeFrom cfg p (IsUsable-Elem p _ e v.usable).known_type in
      (p, e, same, subst (MadeFrom cfg p) (some-injective qr pr (sym made' ∙ made)) from)
]
  where
    lookup_nil : {qr : Provider} → lookup k [] ≡ some qr → ⊥
    lookup_nil g = unfold lookup in cc

-- The address of the callback handler of a key.
abbrev pub callback_url : Config → String → String
callback_url cfg k = cfg.base_url <> ("/auth/oauth2/callback/" <> k)

-- GitLab and Gitea are told to send the browser back to the callback of the provider's own key
-- exactly if that key is the provider's type.
pub redirect_url_iff :
    (e : Endpoints) (pr : Provider)
    → type_of pr ≢ github_provider
    → ((oauth2_config e pr).redirect_url ≡ callback_url (settings pr).config (key pr))
      ↔ (key pr ≡ type_of pr)
unfolding oauth2_config key
redirect_url_iff e (github s) other = absurd (other refl)
redirect_url_iff e (gitlab s) other = (
  λ h. sym (
      append_cancel_left "/auth/oauth2/callback/" _ _ (append_cancel_left s.config.base_url _ _ h)),
  λ h. ap (λ k. s.config.base_url <> ("/auth/oauth2/callback/" <> k)) (sym h),
)
redirect_url_iff e (gitea s) other = (
  λ h. sym (
      append_cancel_left "/auth/oauth2/callback/" _ _ (append_cancel_left s.config.base_url _ _ h)),
  λ h. ap (λ k. s.config.base_url <> ("/auth/oauth2/callback/" <> k)) (sym h),
)
