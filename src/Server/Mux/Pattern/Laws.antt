-- ===== src/Server/Mux/Pattern/Laws.antt =====
-- What the matching chooses is a pattern of the method that matches the path.
use mathlib.Core.Path.{subst}
use mkrepo.Base.{
  String, ◌≡◌, refl, ap, sym, ◌≢◌, ◌⊎◌, inl, inr, Option, none, some, List, [], ◌∷◌, ◌++◌,
}
use mkrepo.Base.{arith, eq_iff, Elem, Bool-cases, or_else, if◌then◌else◌, ◌==◌, some-injective}
use mkrepo.Server.Mux.Pattern.{
  Segment, literal, wildcard, rest, Entry, parse_pattern, entry_of, of_method, after_literal,
  after_wildcard, takes_rest, ends_here, match_path, match_method,
}

-- The segments match the words of the path.
abbrev pub Matches : List Segment → List String → Type 0
Matches [] [] = Unit
Matches [] (word ∷ words) = ⊥
Matches (literal l ∷ segments) [] = ⊥
Matches (literal l ∷ segments) (word ∷ words) = (word ≡ l) × Matches segments words
Matches (wildcard ∷ segments) [] = ⊥
Matches (wildcard ∷ segments) (word ∷ words) = (word ≢ "") × Matches segments words
Matches (rest ∷ segments) [] = ⊥
Matches (rest ∷ segments) (word ∷ words) = Unit

-- An entry with the text matches the words.
abbrev Found : String → List Entry → List String → Type 0
Found text entries words =
    (segments : List Segment) × Elem (text, segments) entries × Matches segments words

ends_here-Found :
    (entries : List Entry) (text : String) → ends_here entries ≡ some text → Found text entries []
unfolding ends_here
ends_here-Found [] text h = cc
ends_here-Found ((t, []) ∷ entries) text h = ([], inl (λ i. (some-injective (sym h) i, [])), tt)
ends_here-Found ((t, segment ∷ segments) ∷ entries) text h =
    let (found, e, m) = ends_here-Found entries text h in (found, inr e, m)

takes_rest-Found :
    (entries : List Entry) (text word : String) (words : List String)
    → takes_rest entries ≡ some text
    → Found text entries (word ∷ words)
unfolding takes_rest
takes_rest-Found [] text word words h = cc
takes_rest-Found ((t, []) ∷ entries) text word words h =
    let (found, e, m) = takes_rest-Found entries text word words h in (found, inr e, m)
takes_rest-Found ((t, literal l ∷ segments) ∷ entries) text word words h =
    let (found, e, m) = takes_rest-Found entries text word words h in (found, inr e, m)
takes_rest-Found ((t, wildcard ∷ segments) ∷ entries) text word words h =
    let (found, e, m) = takes_rest-Found entries text word words h in (found, inr e, m)
takes_rest-Found ((t, rest ∷ segments) ∷ entries) text word words h =
    (rest ∷ segments, inl (λ i. (some-injective (sym h) i, rest ∷ segments)), tt)

Elem-after_literal :
    (word text : String) (segments : List Segment) (entries : List Entry)
    → Elem (text, segments) (after_literal word entries)
    → Elem (text, literal word ∷ segments) entries
unfolding after_literal
Elem-after_literal word text segments [] e = e
Elem-after_literal word text segments ((t, []) ∷ entries) e =
    inr (Elem-after_literal word text segments entries e)
Elem-after_literal word text segments ((t, literal l ∷ left) ∷ entries) e =
    elim (Bool-cases (l == word)) [
      | inl same ↦
          let at_word : literal word ≡ literal l = ap literal (sym ((eq_iff l word).0 same)) in
          let e' : Elem (text, segments) ((t, left) ∷ after_literal word entries) = rw same at e in
          elim e' [
            | inl eq ↦ inl (λ i. ((eq i).0, at_word i ∷ (eq i).1))
            | inr later ↦ inr (Elem-after_literal word text segments entries later)
          ]
      | inr other ↦ inr (Elem-after_literal word text segments entries (rw other at e))
    ]
Elem-after_literal word text segments ((t, wildcard ∷ left) ∷ entries) e =
    inr (Elem-after_literal word text segments entries e)
Elem-after_literal word text segments ((t, rest ∷ left) ∷ entries) e =
    inr (Elem-after_literal word text segments entries e)

Elem-after_wildcard :
    (text : String) (segments : List Segment) (entries : List Entry)
    → Elem (text, segments) (after_wildcard entries)
    → Elem (text, wildcard ∷ segments) entries
unfolding after_wildcard
Elem-after_wildcard text segments [] e = e
Elem-after_wildcard text segments ((t, []) ∷ entries) e =
    inr (Elem-after_wildcard text segments entries e)
Elem-after_wildcard text segments ((t, literal l ∷ left) ∷ entries) e =
    inr (Elem-after_wildcard text segments entries e)
Elem-after_wildcard text segments ((t, wildcard ∷ left) ∷ entries) e = elim e [
  | inl eq ↦ inl (λ i. ((eq i).0, wildcard ∷ (eq i).1))
  | inr later ↦ inr (Elem-after_wildcard text segments entries later)
]
Elem-after_wildcard text segments ((t, rest ∷ left) ∷ entries) e =
    inr (Elem-after_wildcard text segments entries e)

or_else-cases :
    {A : Type 0} (first second : Option A) {a : A}
    → or_else first second ≡ some a
    → (first ≡ some a) ⊎ (second ≡ some a)
or_else-cases none second h = inr h
or_else-cases (some value) second h = inl h

match_path-Found :
    (entries : List Entry) (words : List String) (text : String)
    → match_path entries words ≡ some text
    → Found text entries words
unfolding match_path
match_path-Found entries [] text h = ends_here-Found entries text h
match_path-Found entries (word ∷ words) text h =
    elim (or_else-cases (match_path (after_literal word entries) words) _ h) [
      | inl by_literal ↦
          let (segments, e, m) =
            match_path-Found (after_literal word entries) words text by_literal in
          (literal word ∷ segments, Elem-after_literal word text segments entries e, (refl, m))
      | inr later ↦ elim (or_else-cases _ (takes_rest entries) later) [
        | inl by_wildcard ↦
            let (full, here) = not_empty by_wildcard in
            let (segments, e, m) = match_path-Found (after_wildcard entries) words text here in
            (wildcard ∷ segments, Elem-after_wildcard text segments entries e, (full, m))
        | inr by_rest ↦ takes_rest-Found entries text word words by_rest
      ]
    ]
  where
    not_empty :
        {o : Option String}
        → (if word == "" then none else o) ≡ some text
        → (word ≢ "") × (o ≡ some text)
    not_empty {o} here = elim (Bool-cases (word == "")) [
      | inl empty ↦ absurd (let k = rw empty at here in cc)
      | inr full ↦ (ground (arith, eq_iff word ""), rw full at here)
    ]

Elem-append : {A : Type 0} (x : A) (xs ys : List A) → Elem x (xs ++ ys) → Elem x xs ⊎ Elem x ys
Elem-append x [] ys e = inr e
Elem-append x (y ∷ xs) ys (inl eq) = inl (inl eq)
Elem-append x (y ∷ xs) ys (inr e) = elim (Elem-append x xs ys e) [
  | inl here ↦ inl (inr here)
  | inr later ↦ inr later
]

abbrev ParsesTo : Option (String × List Segment) → String → List Segment → Type 0
ParsesTo o method segments = o ≡ some (method, segments)

single-parsed :
    (method its_method t text : String) (left segments : List Segment)
    → its_method ≡ method
    → Elem {A = Entry} (text, segments) ((t, left) ∷ [])
    → (t ≡ text) × ParsesTo (some (its_method, left)) method segments
single-parsed method its_method t text left segments same (inl eq) =
    (λ i. (sym eq i).0, λ i. some (same i, (sym eq i).1))
single-parsed method its_method t text left segments same (inr never) = elim never [ ]

entry_of-parsed :
    (method t : String) (o : Option (String × List Segment)) (text : String)
    (segments : List Segment)
    → Elem (text, segments) (entry_of method t o)
    → (t ≡ text) × ParsesTo o method segments
unfolding entry_of
entry_of-parsed method t none text segments e = elim e [ ]
entry_of-parsed method t (some (its_method, left)) text segments e =
    elim (Bool-cases (its_method == method)) [
      | inl same ↦
          single-parsed method its_method t text left segments ((eq_iff its_method method).0 same)
            (rw same at e)
      | inr other ↦ absurd (rw other at e)
    ]

of_method-parsed :
    (method : String) (patterns : List String) (text : String) (segments : List Segment)
    → Elem (text, segments) (of_method method patterns)
    → parse_pattern text ≡ some (method, segments)
unfolding of_method
of_method-parsed method [] text segments e = elim e [ ]
of_method-parsed method (t ∷ patterns) text segments e =
    elim (Elem-append (text, segments) (entry_of method t (parse_pattern t)) _ e) [
      | inl here ↦
          let (same, parsed) = entry_of-parsed method t (parse_pattern t) text segments here in
          subst (λ x. parse_pattern x ≡ some (method, segments)) same parsed
      | inr later ↦ of_method-parsed method patterns text segments later
    ]

-- GET is also for HEAD.
abbrev pub Allows : String → String → Type 0
Allows its_method method = (method ≡ its_method) ⊎ ((its_method ≡ "GET") × (method ≡ "HEAD"))

-- A match is that of a pattern that allows the method and whose segments match the path.
pub match_method_sound :
    (patterns : List String) (method : String) (words : List String) (text : String)
    → match_method patterns method words ≡ some text
    → (its_method : String) × (segments : List Segment) × (parse_pattern text
        ≡ some (its_method, segments))
      × Allows its_method method
      × Matches segments words
unfolding match_method
match_method_sound patterns method words text h =
    elim (or_else-cases (match_path (of_method method patterns) words) _ h) [
      | inl exactly ↦
          let (segments, e, m) = match_path-Found _ words text exactly in
          (method, segments, of_method-parsed method patterns text segments e, inl refl, m)
      | inr other ↦ elim (Bool-cases (method == "HEAD")) [
        | inl head ↦
            let by_get : match_path (of_method "GET" patterns) words ≡ some text =
              rw head at other in
            let (segments, e, m) = match_path-Found _ words text by_get in
            (
              "GET",
              segments,
              of_method-parsed "GET" patterns text segments e,
              inr (refl, (eq_iff method "HEAD").0 head),
              m,
            )
        | inr not_head ↦ absurd (let k = rw not_head at other in cc)
      ]
    ]
