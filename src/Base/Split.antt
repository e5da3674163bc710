-- ===== src/Base/Split.antt =====
-- `strings.Split` at a separator of one byte.
use Prim.Native.Char.{Char}
use Prim.Native.String.{String, ◌++◌ as ◌<>◌}
use mathlib.Core.Path.{◌≡◌, refl, ap, ◌∙◌}
use mathlib.Core.Logic.{◌≢◌, inl, inr}
use mathlib.Core.Bool.{false}
use mathlib.Core.List.{List, [], ◌∷◌}
use mkrepo.Base.Lists.{All}
use native.Mathlib.Omega.{arith}
use text.Mathlib.TextLemmas.{cons-append, nil-append}
use mkrepo.Base.Tests.{if◌then◌else◌, Bool-cases}
use mkrepo.Base.Text.{same_char, same_char→eq, same_char_self}

push_head : Char → List String → List String
push_head c [] = String.◌∷◌ c "" ∷ []
push_head c (w ∷ ws) = String.◌∷◌ c w ∷ ws

unfoldable pub split : String → Char → List String
unfolding push_head
split String.[] sep = "" ∷ []
split (String.◌∷◌ c s) sep =
    let words = split s sep in if same_char c sep then "" ∷ words else push_head c words

-- No character of the text is the separator.
abbrev pub Free : Char → String → Type 0
Free sep String.[] = Unit
Free sep (String.◌∷◌ c s) = (same_char c sep ≡ false) × Free sep s

-- The words with a separator between any two.
unfoldable pub join : Char → List String → String
join sep [] = ""
join sep (w ∷ []) = w
join sep (w ∷ v ∷ vs) = w <> String.◌∷◌ sep (join sep (v ∷ vs))

join-push_head :
    (sep c : Char) (ws : List String) → join sep (push_head c ws) ≡ String.◌∷◌ c (join sep ws)
unfolding join push_head
join-push_head sep c [] = refl
join-push_head sep c (w ∷ []) = refl
join-push_head sep c (w ∷ v ∷ vs) = cons-append c w _

split-ne-nil : (s : String) (sep : Char) → split s sep ≢ []
unfolding split
split-ne-nil String.[] sep h = cc
split-ne-nil (String.◌∷◌ c s) sep h = ground arith

join-nil_cons :
    (sep : Char) (ws : List String) → ws ≢ [] → join sep ("" ∷ ws) ≡ String.◌∷◌ sep (join sep ws)
unfolding join
join-nil_cons sep [] h = absurd (h refl)
join-nil_cons sep (w ∷ ws) h = nil-append _

-- Joined by the separator, the words give the text back.
pub join-split : (s : String) (sep : Char) → join sep (split s sep) ≡ s
unfolding split
join-split String.[] sep = unfold join in refl
join-split (String.◌∷◌ c s) sep = elim (Bool-cases (same_char c sep)) [
  | inl same ↦
      rw (same, join-nil_cons sep (split s sep) (split-ne-nil s sep))
        (cc (same_char→eq c sep same, join-split s sep))
  | inr other ↦ rw (other, join-push_head) (ap (String.◌∷◌ c) (join-split s sep))
]

Free-push_head :
    (sep c : Char) (ws : List String)
    → same_char c sep ≡ false
    → All (Free sep) ws
    → All (Free sep) (push_head c ws)
unfolding push_head
Free-push_head sep c [] h f = ((h, tt), tt)
Free-push_head sep c (w ∷ ws) h (f, fs) = ((h, f), fs)

-- No word holds the separator.
pub Free-split : (s : String) (sep : Char) → All (Free sep) (split s sep)
unfolding split
Free-split String.[] sep = (tt, tt)
Free-split (String.◌∷◌ c s) sep = elim (Bool-cases (same_char c sep)) [
  | inl same ↦ rw same (tt, Free-split s sep)
  | inr other ↦ rw other (Free-push_head sep c (split s sep) other (Free-split s sep))
]

split_of_Free : (s : String) (sep : Char) → Free sep s → split s sep ≡ s ∷ []
unfolding split
split_of_Free String.[] sep f = refl
split_of_Free (String.◌∷◌ c s) sep (h, f) = rw (h, split_of_Free s sep f)

-- Two words with the separator between them are split there.
pub split_pair :
    (a b : String) (sep : Char)
    → Free sep a
    → Free sep b
    → split (a <> String.◌∷◌ sep b) sep ≡ a ∷ b ∷ []
unfolding split
split_pair String.[] b sep f g = rw (nil-append, same_char_self, split_of_Free b sep g)
split_pair (String.◌∷◌ c a) b sep (h, f) g = rw (cons-append, h, split_pair a b sep f g)

-- A word in front is split off.
pub split-append :
    (a s : String) (sep : Char) → Free sep a → split (a <> String.◌∷◌ sep s) sep ≡ a ∷ split s sep
unfolding split
split-append String.[] s sep f = rw (nil-append, same_char_self)
split-append (String.◌∷◌ c a) s sep (h, f) = rw (cons-append, h, split-append a s sep f)

-- Words without the separator are what their text is split into.
pub split-join :
    (sep : Char) (w : String) (ws : List String)
    → All (Free sep) (w ∷ ws)
    → split (join sep (w ∷ ws)) sep ≡ w ∷ ws
unfolding join
split-join sep w [] (f, fs) = split_of_Free w sep f
split-join sep w (v ∷ vs) (f, fs) =
    split-append w (join sep (v ∷ vs)) sep f ∙ ap (λ l. w ∷ l) (split-join sep v vs fs)
