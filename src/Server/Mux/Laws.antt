-- ===== src/Server/Mux/Laws.antt =====
-- What `findHandler` chooses matches the request.
use mathlib.Core.Path.{subst}
use mkrepo.Base.{
  String, ◌<>◌, ◌≡◌, refl, ap, sym, ◌∙◌, inl, inr, Option, none, some, List, [], ◌∷◌, map,
}
use mkrepo.Base.{All, eq_iff, ◌==◌, ◌&&◌, not, Bool-cases, some-injective}
use mkrepo.Base.Split.{Free, split, join, join-split, split-append, split-join}
use text.Mathlib.TextLemmas.{cons-append, nil-append}
use mkrepo.Server.Mux.Pattern.{
  Segment, literal, path_words, behind_slash, parse_pattern, match_method,
}
use mkrepo.Server.Mux.Pattern.Laws.{Allows, Matches, match_method_sound}
use mkrepo.Server.Mux.{path_of, cleaned, wants_slash, settled, chosen_words, choose}

slash_first : (s : String) → ("/" <> s) ≡ ("" <> String.◌∷◌ "/" s)
slash_first s = cons-append "/" "" s ∙ ap (String.◌∷◌ "/") (nil-append s) ∙ sym (nil-append _)

path_of-behind_slash :
    (words all : List String) → behind_slash all ≡ some words → path_of words ≡ join "/" all
unfolding join
path_of-behind_slash words [] h = cc
path_of-behind_slash words (first ∷ []) h = cc
path_of-behind_slash words (first ∷ word ∷ more) h = elim (Bool-cases (first == "")) [
  | inl empty ↦
      let same : word ∷ more ≡ words = some-injective (rw empty at h) in
      let none_before : first ≡ "" = (eq_iff first "").0 empty in
      subst (λ ws. path_of ws ≡ first <> String.◌∷◌ "/" (join "/" (word ∷ more))) same
        (subst (λ f. path_of (word ∷ more) ≡ f <> String.◌∷◌ "/" (join "/" (word ∷ more)))
          (sym none_before) (slash_first (join "/" (word ∷ more))))
  | inr full ↦ let k = rw full at h in cc
]

-- The words of a path make it.
path_of-path_words :
    (path : String) (words : List String) → path_words path ≡ some words → path_of words ≡ path
unfolding path_words
path_of-path_words path words h =
    path_of-behind_slash words (split path "/") h ∙ join-split path "/"

-- Words without a slash are those of their path.
pub path_words-path_of :
    (word : String) (words : List String)
    → All (Free "/") (word ∷ words)
    → path_words (path_of (word ∷ words)) ≡ some (word ∷ words)
unfolding path_words
path_words-path_of word words free = ap behind_slash (
    ap (λ p. split p "/") (slash_first (join "/" (word ∷ words)))
    ∙ split-append "" (join "/" (word ∷ words)) "/" tt
    ∙ ap (λ l. "" ∷ l) (split-join "/" word words free))

settled_sound :
    (patterns : List String) (method path : String) (o : Option (List String)) {words : List String}
    → settled patterns method path o ≡ some words
    → o ≡ some words
unfolding settled
settled_sound patterns method path none h = cc
settled_sound patterns method path (some found) h =
    elim (Bool-cases (path_of (cleaned found) == path && not (wants_slash patterns method found))) [
      | inl right ↦ rw right at h
      | inr wrong ↦ let k = rw wrong at h in cc
    ]

chosen_words_sound :
    (patterns : List String) (method : String) (o : Option (List String)) {text : String}
    → chosen_words patterns method o ≡ some text
    → (words : List String) × (o ≡ some words) × (match_method patterns method words ≡ some text)
unfolding chosen_words
chosen_words_sound patterns method none h = cc
chosen_words_sound patterns method (some words) h = (words, refl, h)

-- The pattern allows the method, and its segments match the words of the path.
pub choose_sound :
    (patterns : List String) (method path text : String)
    → choose patterns method path ≡ some text
    → (words : List String) × (path_of words ≡ path)
      × ((its_method : String) × (segments : List Segment) × (parse_pattern text
            ≡ some (its_method, segments))
          × Allows its_method method
          × Matches segments words)
unfolding choose
choose_sound patterns method path text h =
    let (words, found, matched) = chosen_words_sound patterns method _ h in
    (
      words,
      path_of-path_words path words (settled_sound patterns method path _ found),
      match_method_sound patterns method words text matched,
    )

Matches-literal :
    (expected words : List String) → Matches (map literal expected) words → words ≡ expected
Matches-literal [] [] m = refl
Matches-literal [] (word ∷ words) m = elim m [ ]
Matches-literal (e ∷ expected) [] m = elim m [ ]
Matches-literal (e ∷ expected) (word ∷ words) (same, m) =
    cc (same, Matches-literal expected words m)

-- A pattern of literal segments has one path.
pub choose-literal :
    (patterns : List String) (method path text its_method : String) (expected : List String)
    → parse_pattern text ≡ some (its_method, map literal expected)
    → choose patterns method path ≡ some text
    → Allows its_method method × (path ≡ path_of expected)
choose-literal patterns method path text its_method expected parsed h =
    let (words, made, (its, segments, same, allows, m)) =
      choose_sound patterns method path text h in
    let both : some (its, segments) ≡ some (its_method, map literal expected) = sym same ∙ parsed in
    let pair = some-injective both in
    let m' : Matches (map literal expected) words =
      subst (λ x. Matches x words) (ap (λ x. x.1) pair) m in
    (
      subst (λ x. Allows x method) (ap (λ x. x.0) pair) allows,
      sym made ∙ ap path_of (Matches-literal expected words m'),
    )

abbrev pub Gets : List String → String → String → String → Type 0
Gets patterns its_method path text = its_method ≡ "GET" → choose patterns "HEAD" path ≡ some text

-- A pattern that is chosen for its own method and path, and for HEAD if it is one of GET, is chosen
-- whenever its method is allowed.
pub choose_allowed :
    (patterns : List String) (method path text its_method its_path : String)
    → choose patterns its_method its_path ≡ some text
    → Gets patterns its_method its_path text
    → Allows its_method method × (path ≡ its_path)
    → choose patterns method path ≡ some text
choose_allowed patterns method path text its_method its_path own head (inl same, at_path) =
    rw (same, at_path) own
choose_allowed patterns method path text its_method its_path own head
      (inr (get, is_head), at_path) =
    rw (is_head, at_path) (head get)
