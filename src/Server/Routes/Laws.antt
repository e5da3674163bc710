-- ===== src/Server/Routes/Laws.antt =====
-- The routes with a fixed path.
use mkrepo.Base.{String, ◌≡◌, refl, some, List, [], ◌∷◌, map}
use mkrepo.Base.Text.{has_prefix, cut_prefix}
use mkrepo.Base.Split.{split, join}
use mkrepo.Handler.{Request}
use mkrepo.Server.{Site, RequestInputs, patterns, routes}
use mkrepo.Server.Mux.{choose, cleaned, wants_slash, path_of}
use mkrepo.Server.Mux.Pattern.{
  literal, parse_pattern, path_words, match_path, match_method, of_method,
}
use mkrepo.Server.Mux.Laws.{choose-literal, choose_allowed, Gets}
use mkrepo.Server.Routes.{IsFor}

module _ {Block Schema : Type 0} (site : Site Block Schema) (inputs : RequestInputs) where
  -- The words of the path are the segments of the pattern.
  fixed-IsFor :
      (text method : String) (expected : List String)
      → parse_pattern text ≡ some (method, map literal expected)
      → choose (patterns site inputs) method (path_of expected) ≡ some text
      → Gets (patterns site inputs) method (path_of expected) text
      → (r : Request) → IsFor site inputs r text method (path_of expected)
  fixed-IsFor text method expected parsed own head r = (
    choose-literal (patterns site inputs) r.method r.path text method expected parsed,
    choose_allowed (patterns site inputs) r.method r.path text method (path_of expected) own head,
  )

  -- Each pattern of `NewServer` with a fixed path is chosen for that path and its method alone, GET
  -- also for HEAD: no other path or method comes to its handler, and none of the other patterns
  -- takes its requests away.
  pub chosen_iff :
      (r : Request)
      → IsFor site inputs r "GET /auth/login" "GET" "/auth/login"
        × IsFor site inputs r "GET /auth/logout" "GET" "/auth/logout"
        × IsFor site inputs r "GET /auth/delete-account" "GET" "/auth/delete-account"
        × IsFor site inputs r "GET /new" "GET" "/new"
        × IsFor site inputs r "POST /new" "POST" "/new"
        × IsFor site inputs r "GET /schemas" "GET" "/schemas"
        × IsFor site inputs r "GET /templates" "GET" "/templates"
        × IsFor site inputs r "POST /templates" "POST" "/templates"
  unfolding routes patterns choose path_words split cleaned join wants_slash match_method match_path
      of_method parse_pattern has_prefix cut_prefix
  chosen_iff r = (
    fixed-IsFor "GET /auth/login" "GET" ("auth" ∷ "login" ∷ []) refl refl (λ e. refl) r,
    fixed-IsFor "GET /auth/logout" "GET" ("auth" ∷ "logout" ∷ []) refl refl (λ e. refl) r,
    fixed-IsFor "GET /auth/delete-account" "GET" ("auth" ∷ "delete-account" ∷ []) refl refl
        (λ e. refl) r,
    fixed-IsFor "GET /new" "GET" ("new" ∷ []) refl refl (λ e. refl) r,
    fixed-IsFor "POST /new" "POST" ("new" ∷ []) refl refl (λ e. cc) r,
    fixed-IsFor "GET /schemas" "GET" ("schemas" ∷ []) refl refl (λ e. refl) r,
    fixed-IsFor "GET /templates" "GET" ("templates" ∷ []) refl refl (λ e. refl) r,
    fixed-IsFor "POST /templates" "POST" ("templates" ∷ []) refl refl (λ e. cc) r,
  )
