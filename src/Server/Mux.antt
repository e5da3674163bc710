-- ===== src/Server/Mux.antt =====
-- `http.ServeMux` of Go's standard library, as far as internal/server/server.go uses it. The paths are
-- those without escaped characters, and the method is not CONNECT.
pub mod Pattern
pub mod Laws
use mkrepo.Base.{
  String, ◌<>◌, Bool, true, false, not, ◌&&◌, ◌||◌, Option, none, some, List, [], ◌∷◌,
}
use mkrepo.Base.{◌++◌, ◌==◌, if◌then◌else◌, is_set}
use mkrepo.Base.Split.{split, join}
use mkrepo.Base.Text.{cut_prefix}
use mkrepo.Handler.{Request, Response, http_error}
use mkrepo.Server.Mux.Pattern.{
  Segment, literal, wildcard, rest, path_words, parse_pattern, of_method, match_path, match_method,
}

-- `path.Clean`: the stack holds the words that stay, the last one first.
clean_words : List String → List String → List String
clean_words stack [] = stack
clean_words stack (word ∷ words) =
    if word == "" || word == "."
    then clean_words stack words
    else clean_words (if word == ".." then drop_last stack else word ∷ stack) words
  where
    drop_last : List String → List String
    drop_last [] = []
    drop_last (top ∷ below) = below

in_order : List String → List String → List String
in_order [] later = later
in_order (top ∷ below) later = in_order below (top ∷ later)

abbrev last_is_empty : List String → Bool
last_is_empty [] = false
last_is_empty (word ∷ []) = word == ""
last_is_empty (word ∷ next ∷ words) = last_is_empty (next ∷ words)

-- `cleanPath` keeps the slash at the end, and the path of the root.
cleaned_from : List String → List String → List String
cleaned_from [] words = "" ∷ []
cleaned_from (top ∷ below) words =
    in_order (top ∷ below) (if last_is_empty words then "" ∷ [] else [])

unfoldable pub cleaned : List String → List String
unfolding cleaned_from clean_words in_order
cleaned words = cleaned_from (clean_words [] words) words

-- `exactMatch`: the pattern's last segment is no slash, or the slash ends the path.
ends_in_rest : List Segment → Bool
ends_in_rest [] = false
ends_in_rest (literal l ∷ segments) = ends_in_rest segments
ends_in_rest (wildcard ∷ segments) = ends_in_rest segments
ends_in_rest (rest ∷ segments) = true

abbrev exact_segments : Option (String × List Segment) → List String → Bool
unfolding ends_in_rest
exact_segments none words = false
exact_segments (some (method, segments)) words =
    not (ends_in_rest segments) || (last_is_empty words && same_length segments words)
  where
    same_length : List Segment → List String → Bool
    same_length [] [] = true
    same_length (segment ∷ segments) (word ∷ words) = same_length segments words
    same_length segments words = false

exact_match : Option String → List String → Bool
unfolding exact_segments parse_pattern
exact_match none words = false
exact_match (some text) words = exact_segments (parse_pattern text) words

-- Only with a slash at its end is the path that of a pattern.
unfoldable pub wants_slash : List String → String → List String → Bool
unfolding exact_match match_method
wants_slash patterns method words =
    let slashed = words ++ ("" ∷ []) in
    not (exact_match (match_method patterns method words) words)
    && not (last_is_empty words)
    && exact_match (match_method patterns method slashed) slashed

abbrev pub path_of : List String → String
path_of words = "/" <> join "/" words

-- The words of the path, if it is clean and needs no other slash.
settled : List String → String → String → Option (List String) → Option (List String)
settled patterns method path none = none
settled patterns method path (some words) =
    if path_of (cleaned words) == path && not (wants_slash patterns method words)
    then some words
    else none

chosen_words : List String → String → Option (List String) → Option String
chosen_words patterns method none = none
chosen_words patterns method (some words) = match_method patterns method words

-- `findHandler`: the pattern whose handler serves a method and a path, if it is one of the program's.
unfoldable pub choose : List String → String → String → Option String
unfolding chosen_words settled
choose patterns method path =
    chosen_words patterns method (settled patterns method path (path_words path))

-- The patterns that match but for the method.
any_method : List String → List String → List String → Bool
any_method patterns [] words = false
any_method patterns (text ∷ texts) words =
    is_set (match_path (of_method (method_of (parse_pattern text)) patterns) words)
    || any_method patterns texts words
  where
    method_of : Option (String × List Segment) → String
    method_of none = ""
    method_of (some (method, segments)) = method

abbrev moved : Request → String → Response
moved r path = record {
  status = 301;
  location = elim (cut_prefix r.uri r.path) [ none ↦ path | some query ↦ path <> query ];
  cookies = [];
  body = "";
}

refused_words : List String → Request → List String → Response
unfolding any_method
refused_words patterns r words =
    if wants_slash patterns r.method words
    then moved r (path_of words <> "/")
    else if not (path_of words == r.path)
    then moved r (path_of words)
    else if any_method patterns patterns words
    then http_error "Method Not Allowed" 405
    else http_error "404 page not found" 404

-- A path without a slash in front gets one.
abbrev words_or_all : String → Option (List String) → List String
words_or_all path none = split path "/"
words_or_all path (some words) = words

-- `findHandler` and the answer of its own handlers: a redirect to the clean path or the one with a
-- slash, or an error.
unfoldable pub refusal : List String → Request → Response
unfolding refused_words
refusal patterns r = refused_words patterns r (cleaned (words_or_all r.path (path_words r.path)))
