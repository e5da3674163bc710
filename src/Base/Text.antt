-- ===== src/Base/Text.antt =====
-- The functions of Go's `strings` that the program calls, with one character for each byte.
use Prim.Native.String.{String, [], ◌∷◌}
use Prim.Native.String.{◌++◌ as ◌<>◌}
use Prim.Native.Char.{Char, code}
use Prim.Native.Nat.{compare, Ordering}
use mathlib.Core.Path.{◌≡◌, refl, sym, ◌∙◌, ap}
use mathlib.Core.Logic.{◌≢◌}
use mathlib.Core.Bool.{Bool, true, false}
use mathlib.Core.Option.{Option, none, some}
use native.Mathlib.Omega.{arith}
use text.Mathlib.Text.{◌==◌}
use text.Mathlib.TextEquality.{eq_iff, Char-path}
use text.Mathlib.TextLemmas.{cons-append, nil-append, append_cancel_right, cons-ne-nil}
use mkrepo.Base.Tests.{if◌then◌else◌, Bool-cases, is_set}
use mathlib.Core.Logic.{inl, inr}
use text.Mathlib.TextPositions.{eq_refl}

-- `strings.TrimSuffix`: the suffix is cut once, where what is left is the suffix itself.
unfoldable pub trim_suffix : String → String → String
trim_suffix [] suffix = []
trim_suffix (c ∷ s) suffix =
    let kept = c ∷ trim_suffix s suffix in if (c ∷ s) == suffix then [] else kept

cons_append-ne : (c : Char) (s t : String) → ((c ∷ s) <> t) ≢ t
cons_append-ne c s t h = cons-ne-nil c s (append_cancel_right (c ∷ s) [] t (h ∙ sym (nil-append t)))

trim_suffix_self : (t : String) → trim_suffix t t ≡ []
unfolding trim_suffix
trim_suffix_self [] = refl
trim_suffix_self (c ∷ t) = rw eq_refl

trim_suffix_step :
    (c : Char) (s t : String) → (c ∷ s) ≢ t → trim_suffix (c ∷ s) t ≡ c ∷ trim_suffix s t
unfolding trim_suffix
trim_suffix_step c s t h = ground (arith, eq_iff (c ∷ s) t)

-- What was put in front of a suffix comes back.
pub trim_suffix-append : (s t : String) → trim_suffix (s <> t) t ≡ s
trim_suffix-append [] t = rw nil-append (trim_suffix_self t)
trim_suffix-append (c ∷ s) t = rw cons-append (
    trim_suffix_step c (s <> t) t (λ e. cons_append-ne c s t (cons-append c s t ∙ e))
    ∙ ap (λ r. c ∷ r) (trim_suffix-append s t))

abbrev pub same_char : Char → Char → Bool
same_char c d = elim (compare (code c) (code d)) [ Ordering.eq ↦ true | _ ↦ false ]

pub same_char→eq : (c d : Char) → same_char c d ≡ true → c ≡ d
same_char→eq c d h = Char-path c d (ground arith)

pub same_char_self : (c : Char) → same_char c c ≡ true
same_char_self c = ground arith

-- The rest of a text behind a prefix, if it has that prefix (`strings.CutPrefix`).
unfoldable pub cut_prefix : String → String → Option String
cut_prefix s [] = some s
cut_prefix [] (d ∷ p) = none
cut_prefix (c ∷ s) (d ∷ p) = if same_char c d then cut_prefix s p else none

pub cut_prefix-append : (p s : String) → cut_prefix (p <> s) p ≡ some s
unfolding cut_prefix
cut_prefix-append [] s = rw nil-append
cut_prefix-append (c ∷ p) s = rw cons-append (rw same_char_self (cut_prefix-append p s))

pub append_of_cut_prefix : (s p : String) {r : String} → cut_prefix s p ≡ some r → p <> r ≡ s
unfolding cut_prefix
append_of_cut_prefix s [] h = nil-append _ ∙ ground arith
append_of_cut_prefix [] (d ∷ p) h = cc
append_of_cut_prefix (c ∷ s) (d ∷ p) {r} h = elim (Bool-cases (same_char c d)) [
  | inl same ↦ rw cons-append (cc (same_char→eq c d same, append_of_cut_prefix s p (rw same at h)))
  | inr other ↦ absurd (cc (rw other at h))
]

-- `strings.HasPrefix`
unfoldable pub has_prefix : String → String → Bool
unfolding cut_prefix
has_prefix s p = is_set (cut_prefix s p)

-- `strings.TrimPrefix`
unfoldable pub trim_prefix : String → String → String
unfolding cut_prefix
trim_prefix s p = elim (cut_prefix s p) [ none ↦ s | some r ↦ r ]

-- A prefix that can be cut is found, and trimming gives what cutting gives.
pub trim_prefix-cut_prefix :
    (s p : String) {r : String}
    → cut_prefix s p ≡ some r
    → (has_prefix s p ≡ true) × (trim_prefix s p ≡ r)
unfolding has_prefix trim_prefix
trim_prefix-cut_prefix s p h = (rw (h, has_prefix) refl, rw (h, trim_prefix) refl)

pub has_prefix-cut_prefix : (s p : String) → cut_prefix s p ≡ none → has_prefix s p ≡ false
unfolding has_prefix
has_prefix-cut_prefix s p h = rw (h, has_prefix) refl
