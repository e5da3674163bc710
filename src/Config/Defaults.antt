-- ===== src/Config/Defaults.antt =====
-- The defaults: what they fill in, and that they never change what is set.
use mkrepo.Base.{String, ◌≡◌, refl, ◌≢◌, inl, inr, List, [], ◌∷◌, map, arith, eq_iff}
use mkrepo.Config.{Provider, Config}
use mkrepo.Config.{
  default_type, default_name, set_defaults_provider, set_defaults, default_to, type_name,
}
use mkrepo.Config.Validation.{IsProviderType, is_provider_type_iff}

type_name-ne : (t : String) → IsProviderType t → type_name t ≢ ""
unfolding type_name
type_name-ne t (inl h) = rw h (ground (arith, eq_iff "GitHub" ""))
type_name-ne t (inr (inl h)) = rw h (ground (arith, eq_iff "GitLab" ""))
type_name-ne t (inr (inr h)) = rw h (ground (arith, eq_iff "Gitea" ""))

default_type_of_key :
    (p : Provider) → p.type ≡ "" → IsProviderType p.key → default_type p ≡ record p { type = p.key }
unfolding default_type
default_type_of_key p h k = rw (h, (is_provider_type_iff p.key).1 k)

default_name-named :
    (p : Provider)
    → IsProviderType p.type
    → ((default_name p).type ≡ p.type) × ((default_name p).name ≢ "")
unfolding default_name
default_name-named p k = ground (arith, eq_iff p.name "", type_name-ne p.type k)

-- A provider with a known key and no type gets its key as type, and a name unless it has one.
pub set_defaults_provider_of_key :
    (p : Provider)
    → p.type ≡ ""
    → IsProviderType p.key
    → ((set_defaults_provider p).type ≡ p.key) × ((set_defaults_provider p).name ≢ "")
set_defaults_provider_of_key p h k =
    unfold set_defaults_provider in
    rw (default_type_of_key p h k) (default_name-named (record p { type = p.key }) k)

default_type-keeps :
    (p : Provider) → ((default_type p).key ≡ p.key) × ((default_type p).name ≡ p.name)
unfolding default_type
default_type-keeps p = ground arith

default_type_idem :
    (p : Provider) → default_type (default_name (default_type p)) ≡ default_name (default_type p)
unfolding default_type default_name
default_type_idem p = ground (arith, eq_iff p.type "", eq_iff p.key "")

default_name_idem : (p : Provider) → default_name (default_name p) ≡ default_name p
unfolding default_name
default_name_idem p = ground arith

set_defaults_provider_idem :
    (p : Provider) → set_defaults_provider (set_defaults_provider p) ≡ set_defaults_provider p
set_defaults_provider_idem p =
    unfold set_defaults_provider in rw default_type_idem (default_name_idem (default_type p))

map-set_defaults_provider_idem :
    (ps : List Provider)
    → map set_defaults_provider (map set_defaults_provider ps) ≡ map set_defaults_provider ps
map-set_defaults_provider_idem [] = refl
map-set_defaults_provider_idem (p ∷ ps) =
    cc (set_defaults_provider_idem p, map-set_defaults_provider_idem ps)

default_to_idem :
    (value field : String) → default_to value (default_to value field) ≡ default_to value field
default_to_idem value field = ground (arith, eq_iff value "")

-- Setting the defaults a second time changes nothing.
pub set_defaults_idem : (cfg : Config) → set_defaults (set_defaults cfg) ≡ set_defaults cfg
unfolding set_defaults
set_defaults_idem cfg = rw (map-set_defaults_provider_idem cfg.providers) (ground arith)

-- What the configuration file sets is kept.
pub set_defaults_provider-keeps :
    (p : Provider)
    → (p.type ≢ "" → (set_defaults_provider p).type ≡ p.type)
      × (p.name ≢ "" → (set_defaults_provider p).name ≡ p.name)
      × ((set_defaults_provider p).key ≡ p.key)
      × ((set_defaults_provider p).client_id ≡ p.client_id)
      × ((set_defaults_provider p).client_secret ≡ p.client_secret)
      × ((set_defaults_provider p).url ≡ p.url)
      × ((set_defaults_provider p).api_url ≡ p.api_url)
unfolding set_defaults_provider
set_defaults_provider-keeps p = ground (arith, eq_iff p.type "", eq_iff p.name "")
