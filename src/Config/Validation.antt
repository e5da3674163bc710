-- ===== src/Config/Validation.antt =====
-- What `validate` accepts, and what `LoadConfig` returns.
use mkrepo.Base.{String, ◌≡◌, refl, ◌≢◌, ◌↔◌, ◌⊎◌, true, false, List, [], ◌∷◌, map, ◌==◌}
use mkrepo.Base.{arith, eq_iff, All, any, ok}
use mkrepo.Config.{Provider, Config, github_provider, gitlab_provider, gitea_provider}
use mkrepo.Config.{is_provider_type, validate_provider, check_keys, is_empty}
use mkrepo.Config.{check_providers, validate}

abbrev pub IsProviderType : String → Type 0
IsProviderType t = (t ≡ github_provider) ⊎ (t ≡ gitlab_provider) ⊎ (t ≡ gitea_provider)

-- A provider that the server can be started with.
pub record IsUsable (p : Provider) : Type 0 where
  pub has_key : p.key ≢ ""
  pub has_client_id : p.client_id ≢ ""
  pub has_client_secret : p.client_secret ≢ ""
  pub known_type : IsProviderType p.type

-- No two items of the list are equal.
abbrev pub Distinct : List String → Type 0
Distinct [] = Unit
Distinct (k ∷ ks) = All (λ j. k ≢ j) ks × Distinct ks

abbrev pub keys : List Provider → List String
keys = map (λ p. p.key)

pub record IsValid (cfg : Config) : Type 0 where
  pub has_secret : cfg.secret_key ≢ ""
  pub has_providers : cfg.providers ≢ []
  pub distinct_keys : Distinct (keys cfg.providers)
  pub usable : All IsUsable cfg.providers

pub is_provider_type_iff : (t : String) → (is_provider_type t ≡ true) ↔ IsProviderType t
is_provider_type_iff t =
    ground (arith, eq_iff github_provider t, eq_iff gitlab_provider t, eq_iff gitea_provider t)

validate_provider_iff : (p : Provider) → (validate_provider p ≡ ok tt) ↔ IsUsable p
unfolding validate_provider
validate_provider_iff p = ground (
  arith,
  eq_iff p.key "",
  eq_iff p.client_id "",
  eq_iff p.client_secret "",
  is_provider_type_iff p.type,
)

check_providers_iff : (ps : List Provider) → (check_providers ps ≡ ok tt) ↔ All IsUsable ps
unfolding check_providers
check_providers_iff [] = (λ _. tt, λ _. refl)
check_providers_iff (p ∷ ps) = ground (arith, validate_provider_iff p, check_providers_iff ps)

any_iff : (k : String) (ks : List String) → (any (λ j. j == k) ks ≡ false) ↔ All (λ j. j ≢ k) ks
any_iff k [] = (λ _. tt, λ _. refl)
any_iff k (j ∷ ks) = ground (arith, eq_iff j k, any_iff k ks)

both : (P Q : String → Type 0) (ks : List String) → All (λ k. P k × Q k) ks ↔ (All P ks × All Q ks)
both P Q [] = (λ _. (tt, tt), λ _. tt)
both P Q (k ∷ ks) = ground (arith, both P Q ks)

check_keys_iff :
    (seen : List String) (ps : List Provider)
    → (check_keys seen ps ≡ ok tt)
      ↔ (Distinct (keys ps) × All (λ k. All (λ j. j ≢ k) seen) (keys ps))
unfolding check_keys
check_keys_iff seen [] = (λ _. (tt, tt), λ _. refl)
check_keys_iff seen (p ∷ ps) =
    let parts = both (λ k. p.key ≢ k) (λ k. All (λ j. j ≢ k) seen) (keys ps) in
    let ih = check_keys_iff (p.key ∷ seen) ps in ground (arith, any_iff p.key seen, ih, parts)

check_keys_nil_iff : (ps : List Provider) → (check_keys [] ps ≡ ok tt) ↔ Distinct (keys ps)
check_keys_nil_iff ps =
    (λ e. ((check_keys_iff [] ps).0 e).0, λ d. (check_keys_iff [] ps).1 (d, trivial (keys ps)))
  where
    trivial : (ks : List String) → All (λ k. All (λ j. j ≢ k) []) ks
    trivial [] = tt
    trivial (k ∷ ks) = (tt, trivial ks)

is_empty_iff : (ps : List Provider) → (is_empty ps ≡ false) ↔ (ps ≢ [])
is_empty_iff [] = ground arith
is_empty_iff (p ∷ ps) = ground arith

-- `validate` accepts exactly the configurations with a secret key, at least one provider, no key
-- twice, and a key, a client ID, a client secret and a known type for every provider.
pub validate_iff : (cfg : Config) → (validate cfg ≡ ok tt) ↔ IsValid cfg
unfolding validate
validate_iff cfg = ground (
  arith,
  eq_iff cfg.secret_key "",
  is_empty_iff cfg.providers,
  check_keys_nil_iff cfg.providers,
  check_providers_iff cfg.providers,
)
