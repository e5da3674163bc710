-- ===== src/Base/Escape.antt =====
-- `url.QueryEscape`, with one character for each byte.
use Prim.Native.Nat.{ℕ, zero, suc, ◌/◌, ◌%◌}
use Prim.Native.Char.{Char, code}
use Prim.Native.String.{String, [], ◌∷◌}
use Prim.Native.String.{◌++◌ as ◌<>◌}
use mathlib.Core.Bool.{Bool, ◌&&◌, ◌||◌}
use mathlib.Core.Path.{◌≡◌, refl}
use mkrepo.Base.Tests.{ltb, if◌then◌else◌}
use mkrepo.Base.Text.{same_char}

abbrev between : ℕ → ℕ → Char → Bool
between low high c = ltb low (suc (code c)) && ltb (code c) (suc high)

-- Letters, digits and the four marks `-`, `_`, `.` and `~`.
abbrev is_unreserved : Char → Bool
is_unreserved c =
    between 97 122 c
    || between 65 90 c
    || between 48 57 c
    || same_char c "-"
    || same_char c "_"
    || same_char c "."
    || same_char c "~"

hex_digit : ℕ → String → String
hex_digit n [] = []
hex_digit zero (c ∷ digits) = c ∷ []
hex_digit (suc n) (c ∷ digits) = hex_digit n digits

escaped : Char → String
unfolding hex_digit
escaped c =
    if is_unreserved c
    then c ∷ []
    else if same_char c " "
    then "+"
    else "%"
      <> hex_digit (code c / 16) "0123456789ABCDEF"
      <> hex_digit (code c % 16) "0123456789ABCDEF"

unfoldable pub query_escape : String → String
unfolding escaped
query_escape [] = []
query_escape (c ∷ s) = escaped c <> query_escape s

query_escape_path : query_escape "/new?name=a b~c" ≡ "%2Fnew%3Fname%3Da+b~c"
unfolding query_escape
query_escape_path = refl
