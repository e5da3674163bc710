-- ===== src/Server/Tests.antt =====
-- The server's theorems at a concrete site.
use mkrepo.Base.{ℕ, String, ◌≡◌, refl, some, none, Option}
use mkrepo.Base.Text.{has_prefix, cut_prefix}
use mkrepo.Base.Split.{split, join}
use mkrepo.Handler.{Request, http_error}
use mkrepo.Handler.Samples.{request}
use mkrepo.Server.{routes, patterns}
use mkrepo.Server.Samples.{site, inputs, post}
use mkrepo.Server.Mux.{choose, refusal, cleaned, wants_slash}
use mkrepo.Server.Mux.Pattern.{parse_pattern, path_words, match_path, match_method, of_method}
use mkrepo.Server.Routes.{IsFor}
use mkrepo.Server.Routes.Laws.{chosen_iff}

chosen_iff_example :
    IsFor site inputs post "GET /auth/login" "GET" "/auth/login"
    × IsFor site inputs post "GET /auth/logout" "GET" "/auth/logout"
    × IsFor site inputs post "GET /auth/delete-account" "GET" "/auth/delete-account"
    × IsFor site inputs post "GET /new" "GET" "/new"
    × IsFor site inputs post "POST /new" "POST" "/new"
    × IsFor site inputs post "GET /schemas" "GET" "/schemas"
    × IsFor site inputs post "GET /templates" "GET" "/templates"
    × IsFor site inputs post "POST /templates" "POST" "/templates"
chosen_iff_example = chosen_iff site inputs post

-- The pattern and the answer of the multiplexer for a method and a path.
abbrev at : String → String → Request
at method path = record request { method = method; path = path; uri = path }

answer_at : String → String → Option String
unfolding patterns routes choose path_words split cleaned join wants_slash match_method match_path
    of_method parse_pattern has_prefix cut_prefix
answer_at method path = choose (patterns site inputs) method path

callback_path :
    answer_at "GET" "/auth/oauth2/callback/github" ≡ some "GET /auth/oauth2/callback/{provider}"
unfolding answer_at
callback_path = refl

static_file : answer_at "HEAD" "/static/css/site.css" ≡ some "GET /static/"
unfolding answer_at
static_file = refl

-- Every other path of a GET is that of the index.
unknown_path : answer_at "GET" "/unknown/page" ≡ some "GET /"
unfolding answer_at
unknown_path = refl

unclean_path : answer_at "GET" "/auth/../new" ≡ none
unfolding answer_at
unclean_path = refl

without_slash : answer_at "GET" "/static" ≡ none
unfolding answer_at
without_slash = refl

refused : String → String → ℕ × String
unfolding patterns routes refusal path_words split cleaned join wants_slash match_method match_path
    of_method parse_pattern has_prefix cut_prefix http_error
refused method path =
    let answer = refusal (patterns site inputs) (at method path) in (answer.status, answer.location)

unclean_moves : refused "GET" "/auth/../new" ≡ (301, "/new")
unfolding refused
unclean_moves = refl

slash_moves : refused "GET" "/static" ≡ (301, "/static/")
unfolding refused
slash_moves = refl

method_not_allowed : refused "DELETE" "/new" ≡ (405, "")
unfolding refused
method_not_allowed = refl
