-- ===== src/Server/Routes/Callback.antt =====
-- The route of the callback.
use mkrepo.Base.{String, ◌≡◌, ◌≢◌, refl, some, false, List, [], ◌∷◌, ◌==◌}
use mkrepo.Base.{arith, eq_iff, eq_refl}
use mkrepo.Base.Text.{has_prefix, cut_prefix}
use mkrepo.Base.Split.{Free, split}
use mkrepo.Handler.{Request}
use mkrepo.Server.{Site, RequestInputs, patterns, routes, chosen}
use mkrepo.Server.Mux.{choose, cleaned, wants_slash, path_of}
use mkrepo.Server.Mux.Pattern.{parse_pattern, path_words, match_path, match_method, of_method}
use mkrepo.Server.Mux.Pattern.Laws.{Allows}
use mkrepo.Server.Mux.Laws.{path_words-path_of, choose_allowed}

-- The path with the key of a provider.
abbrev pub callback_words : String → List String
callback_words key = "auth" ∷ "oauth2" ∷ "callback" ∷ key ∷ []

abbrev pub callback_pattern : String
callback_pattern = "GET /auth/oauth2/callback/{provider}"

-- The key is one segment of a path that is clean.
pub record IsSegment (key : String) : Type 0 where
  pub one : Free "/" key
  pub not_empty : key ≢ ""
  pub not_dot : key ≢ "."
  pub not_dots : key ≢ ".."

module _ {Block Schema : Type 0} (site : Site Block Schema) (inputs : RequestInputs) where
  callback_words-parsed :
      (key : String)
      → IsSegment key
      → path_words (path_of (callback_words key)) ≡ some (callback_words key)
  unfolding split
  callback_words-parsed key s = path_words-path_of "auth" ("oauth2" ∷ "callback" ∷ key ∷ []) (
    (refl, (refl, (refl, (refl, tt)))),
    (
      (refl, (refl, (refl, (refl, (refl, (refl, tt)))))),
      ((refl, (refl, (refl, (refl, (refl, (refl, (refl, (refl, tt)))))))), (s.one, tt)),
    ),
  )

  module _ (key : String) (s : IsSegment key) where
    full : (key == "") ≡ false
    full = let ne = s.not_empty in ground (arith, eq_iff key "")

    cleaned_callback : cleaned (callback_words key) ≡ callback_words key
    unfolding cleaned
    cleaned_callback =
        let no_dot = s.not_dot in
        let no_dots = s.not_dots in
        let one : (key == ".") ≡ false = ground (arith, eq_iff key ".") in
        let two : (key == "..") ≡ false = ground (arith, eq_iff key "..") in
        rw (full, one, two) (rw full refl)

    match_get :
        match_method (patterns site inputs) "GET" (callback_words key) ≡ some callback_pattern
    unfolding routes patterns match_method match_path of_method parse_pattern path_words split
        has_prefix cut_prefix
    match_get = rw full refl

    match_head :
        match_method (patterns site inputs) "HEAD" (callback_words key) ≡ some callback_pattern
    unfolding routes patterns match_method match_path of_method parse_pattern path_words split
        has_prefix cut_prefix
    match_head = rw full refl

    no_slash :
        (method : String)
        → match_method (patterns site inputs) method (callback_words key) ≡ some callback_pattern
        → wants_slash (patterns site inputs) method (callback_words key) ≡ false
    unfolding wants_slash parse_pattern path_words split has_prefix cut_prefix
    no_slash method matched = rw matched refl

    choose_matched :
        (method : String)
        → match_method (patterns site inputs) method (callback_words key) ≡ some callback_pattern
        → choose (patterns site inputs) method (path_of (callback_words key))
          ≡ some callback_pattern
    unfolding choose
    choose_matched method matched =
        rw
          (
            callback_words-parsed key s,
            cleaned_callback,
            eq_refl (path_of (callback_words key)),
            no_slash method matched,
          )
          matched

  -- A GET or HEAD of the callback's path for a provider is for its pattern.
  pub callback_chosen :
      (r : Request)
      → IsSegment r.path_provider
      → Allows "GET" r.method × (r.path ≡ path_of (callback_words r.path_provider))
      → chosen site inputs r ≡ some callback_pattern
  callback_chosen r s at_path =
      choose_allowed (patterns site inputs) r.method r.path callback_pattern "GET"
        (path_of (callback_words r.path_provider))
        (choose_matched r.path_provider s "GET" (match_get r.path_provider s))
        (λ get. choose_matched r.path_provider s "HEAD" (match_head r.path_provider s)) at_path
