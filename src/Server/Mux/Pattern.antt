-- ===== src/Server/Mux/Pattern.antt =====
-- The patterns of `http.ServeMux` that internal/server/server.go uses: a method and a path, whose
-- segments are literal, a wildcard or, behind a trailing slash, the rest of the path.
pub mod Laws
use mkrepo.Base.{String, Bool, Option, none, some, List, [], ◌∷◌}
use mkrepo.Base.{◌++◌, ◌==◌, if◌then◌else◌, or_else}
use mkrepo.Base.Split.{split}
use mkrepo.Base.Text.{has_prefix}

pub data Segment : Type 0 where
  literal : String → Segment
  wildcard rest : Segment

-- A pattern's text and what of its segments is still to be matched.
abbrev pub Entry : Type 0
Entry = String × List Segment

abbrev segment_of : String → Segment
segment_of word = if has_prefix word "{" then wildcard else literal word

segments_of : List String → List Segment
segments_of [] = []
segments_of (word ∷ []) = (if word == "" then rest else segment_of word) ∷ []
segments_of (word ∷ next ∷ words) = segment_of word ∷ segments_of (next ∷ words)

-- The words behind the first slash of a path.
abbrev pub behind_slash : List String → Option (List String)
behind_slash [] = none
behind_slash (first ∷ []) = none
behind_slash (first ∷ word ∷ words) = if first == "" then some (word ∷ words) else none

unfoldable pub path_words : String → Option (List String)
path_words path = behind_slash (split path "/")

path_pattern : String → Option (List String) → Option (String × List Segment)
unfolding segments_of
path_pattern method none = none
path_pattern method (some words) = some (method, segments_of words)

abbrev method_pattern : List String → Option (String × List Segment)
unfolding path_pattern path_words
method_pattern (method ∷ path ∷ []) = path_pattern method (path_words path)
method_pattern other = none

-- The method and the segments of a pattern.
unfoldable pub parse_pattern : String → Option (String × List Segment)
unfolding method_pattern
parse_pattern text = method_pattern (split text " ")

-- The patterns of a method.
entry_of : String → String → Option (String × List Segment) → List Entry
entry_of method text none = []
entry_of method text (some (its_method, segments)) =
    if its_method == method then (text, segments) ∷ [] else []

unfoldable pub of_method : String → List String → List Entry
unfolding entry_of parse_pattern
of_method method [] = []
of_method method (text ∷ texts) =
    entry_of method text (parse_pattern text) ++ of_method method texts

-- `findChild`, `emptyChild` and `multiChild`: the entries whose next segment is a literal or a
-- wildcard, behind it, and the one that takes the rest.
after_literal : String → List Entry → List Entry
after_literal word [] = []
after_literal word ((text, literal l ∷ segments) ∷ entries) =
    let others = after_literal word entries in
    if l == word then (text, segments) ∷ others else others
after_literal word (entry ∷ entries) = after_literal word entries

after_wildcard : List Entry → List Entry
after_wildcard [] = []
after_wildcard ((text, wildcard ∷ segments) ∷ entries) = (text, segments) ∷ after_wildcard entries
after_wildcard (entry ∷ entries) = after_wildcard entries

takes_rest : List Entry → Option String
takes_rest [] = none
takes_rest ((text, rest ∷ segments) ∷ entries) = some text
takes_rest (entry ∷ entries) = takes_rest entries

ends_here : List Entry → Option String
ends_here [] = none
ends_here ((text, []) ∷ entries) = some text
ends_here (entry ∷ entries) = ends_here entries

-- `matchPath`: a literal before a wildcard before the rest, at each segment.
unfoldable pub match_path : List Entry → List String → Option String
unfolding after_literal after_wildcard takes_rest ends_here
match_path entries [] = ends_here entries
match_path entries (word ∷ words) =
    let by_literal = match_path (after_literal word entries) words in
    let by_wildcard = match_path (after_wildcard entries) words in
    or_else by_literal (or_else (if word == "" then none else by_wildcard) (takes_rest entries))

-- `matchMethodAndPath`: GET is also a pattern for HEAD.
unfoldable pub match_method : List String → String → List String → Option String
unfolding match_path of_method
match_method patterns method words =
    or_else (match_path (of_method method patterns) words)
      (if method == "HEAD" then match_path (of_method "GET" patterns) words else none)
