-- ===== src/Base/Int.antt =====
-- int64 and its decimal form: `strconv.FormatInt(n, 10)` and `strconv.ParseInt(s, 10, 64)`.
use Prim.Native.Nat.{ℕ, zero, suc, ◌+◌, ◌-◌, ◌*◌, ◌/◌, ◌%◌, ◌^◌, ◌<◌, compare, Ordering}
use Prim.Native.Char.{Char, code}
use Prim.Native.String.{String, [], ◌∷◌}
use mathlib.Core.Path.{◌≡◌, refl, ◌∙◌, ap}
use mathlib.Core.Bool.{Bool, true, false, ◌&&◌}
use mathlib.Core.Option.{Option, none, some}
use mathlib.Core.Logic.{inl, inr}
use native.Mathlib.Omega.{arith}
use mathlib.Core.Logic.{◌≢◌}
use text.Mathlib.TextLemmas.{cons≢nil}
use mkrepo.Base.Tests.{ltb, if◌then◌else◌, Bool-cases}

-- `negsuc n` is -(n + 1).
pub data ℤ : Type 0 where
  pos : ℕ → ℤ
  negsuc : ℕ → ℤ

abbrev pub limit : ℕ
limit = 2 ^ 63

-- The integers that an int64 holds.
abbrev pub IsInt64 : ℤ → Type 0
IsInt64 (pos n) = n < limit
IsInt64 (negsuc n) = n < limit

digit : ℕ → Char
digit zero = "0"
digit (suc zero) = "1"
digit (suc (suc zero)) = "2"
digit (suc (suc (suc zero))) = "3"
digit (suc (suc (suc (suc zero)))) = "4"
digit (suc (suc (suc (suc (suc zero))))) = "5"
digit (suc (suc (suc (suc (suc (suc zero)))))) = "6"
digit (suc (suc (suc (suc (suc (suc (suc zero))))))) = "7"
digit (suc (suc (suc (suc (suc (suc (suc (suc zero)))))))) = "8"
digit _ = "9"

-- The digits of `n` in front of `rest`; `n + 1` rounds are enough.
digits : ℕ → ℕ → String → String
unfolding digit
digits zero n rest = rest
digits (suc f) n rest = elim (ltb n 10) [
  | true ↦ digit n ∷ rest
  | false ↦ digits f (n / 10) (digit (n % 10) ∷ rest)
]

format_uint : ℕ → String
unfolding digits
format_uint n = digits (suc n) n []

unfoldable pub format_int : ℤ → String
unfolding format_uint
format_int (pos n) = format_uint n
format_int (negsuc n) = "-" ∷ format_uint (suc n)

abbrev is_digit : Char → Bool
is_digit c = ltb 47 (code c) && ltb (code c) 58

parse_digits : ℕ → String → Option ℕ
parse_digits acc [] = some acc
parse_digits acc (c ∷ s) =
    let more = parse_digits (acc * 10 + (code c - 48)) s in if is_digit c then more else none

-- At least one digit.
parse_uint : String → Option ℕ
unfolding parse_digits
parse_uint [] = none
parse_uint (c ∷ s) = parse_digits 0 (c ∷ s)

abbrev in_range : Option ℕ → Option ℤ
in_range none = none
in_range (some n) = if ltb n limit then some (pos n) else none

-- -0 is 0, and -2^63 is in range.
abbrev negate : Option ℕ → Option ℤ
negate none = none
negate (some zero) = some (pos 0)
negate (some (suc n)) = if ltb n limit then some (negsuc n) else none

abbrev is_char : Char → ℕ → Bool
is_char c n = elim (compare (code c) n) [ Ordering.eq ↦ true | _ ↦ false ]

unfoldable pub parse_int : String → Option ℤ
unfolding parse_uint
parse_int [] = none
parse_int (c ∷ s) =
    if is_char c b'-'
    then negate (parse_uint s)
    else if is_char c b'+'
    then in_range (parse_uint s)
    else in_range (parse_uint (c ∷ s))

-- `strconv.Atoi`, where an `int` has 64 bits.
abbrev pub atoi : String → Option ℤ
atoi = parse_int

code-digit : (d : ℕ) → d < 10 → code (digit d) ≡ 48 + d
unfolding digit
code-digit zero h = refl
code-digit (suc zero) h = refl
code-digit (suc (suc zero)) h = refl
code-digit (suc (suc (suc zero))) h = refl
code-digit (suc (suc (suc (suc zero)))) h = refl
code-digit (suc (suc (suc (suc (suc zero))))) h = refl
code-digit (suc (suc (suc (suc (suc (suc zero)))))) h = refl
code-digit (suc (suc (suc (suc (suc (suc (suc zero))))))) h = refl
code-digit (suc (suc (suc (suc (suc (suc (suc (suc zero)))))))) h = refl
code-digit (suc (suc (suc (suc (suc (suc (suc (suc (suc zero))))))))) h = refl
code-digit (suc (suc (suc (suc (suc (suc (suc (suc (suc (suc n)))))))))) h = absurd (omega arith)

is_digit-digit : (d : ℕ) → d < 10 → is_digit (digit d) ≡ true
is_digit-digit d h = ground (arith, code-digit d h)

parse_digits-digit :
    (acc d : ℕ) (rest : String)
    → d < 10
    → parse_digits acc (digit d ∷ rest) ≡ parse_digits (acc * 10 + d) rest
unfolding parse_digits
parse_digits-digit acc d rest h =
    let e : acc * 10 + (code (digit d) - 48) ≡ acc * 10 + d = omega (arith, code-digit d h) in
    rw (is_digit-digit d h) (ap (λ v. parse_digits v rest) e)

digits_small : (f n : ℕ) (rest : String) → ltb n 10 ≡ true → digits (suc f) n rest ≡ digit n ∷ rest
unfolding digits
digits_small f n rest h = rw (h, digits)

digits_large :
    (f n : ℕ) (rest : String)
    → ltb n 10 ≡ false
    → digits (suc f) n rest ≡ digits f (n / 10) (digit (n % 10) ∷ rest)
unfolding digits
digits_large f n rest h = rw (h, digits)

parse_digits-digits :
    (f n : ℕ) (rest : String) → n < f → parse_digits 0 (digits f n rest) ≡ parse_digits n rest
parse_digits-digits zero n rest h = elim h [ ]
parse_digits-digits (suc f) n rest h = elim (Bool-cases (ltb n 10)) [
  | inl small ↦
      rw (digits_small f n rest small)
        (parse_digits-digit 0 n rest (ground arith) ∙ ap (λ v. parse_digits v rest) (omega arith))
  | inr large ↦
      let e : n / 10 * 10 + n % 10 ≡ n = omega arith in
      rw (digits_large f n rest large) (
        parse_digits-digits f (n / 10) (digit (n % 10) ∷ rest) (ground arith)
        ∙ parse_digits-digit (n / 10) (n % 10) rest (omega arith)
        ∙ ap (λ v. parse_digits v rest) e)
]

-- The text begins with a digit.
abbrev StartsDigit : String → Type 0
StartsDigit [] = ⊥
StartsDigit (c ∷ s) = is_digit c ≡ true

digits-StartsDigit : (f n : ℕ) (rest : String) → n < f → StartsDigit (digits f n rest)
digits-StartsDigit zero n rest h = elim h [ ]
digits-StartsDigit (suc f) n rest h = elim (Bool-cases (ltb n 10)) [
  | inl small ↦ rw (digits_small f n rest small) (is_digit-digit n (ground arith))
  | inr large ↦
      rw (digits_large f n rest large)
        (digits-StartsDigit f (n / 10) (digit (n % 10) ∷ rest) (ground arith))
]

parse_uint_of_StartsDigit : (s : String) → StartsDigit s → parse_uint s ≡ parse_digits 0 s
unfolding parse_uint
parse_uint_of_StartsDigit [] h = absurd h
parse_uint_of_StartsDigit (c ∷ s) h = refl

parse_uint-format_uint : (n : ℕ) → parse_uint (format_uint n) ≡ some n
unfolding format_uint
parse_uint-format_uint n =
    parse_uint_of_StartsDigit _ (digits-StartsDigit (suc n) n [] (omega arith))
    ∙ parse_digits-digits (suc n) n [] (omega arith)
    ∙ (unfold parse_digits in refl)

format_uint-StartsDigit : (n : ℕ) → StartsDigit (format_uint n)
unfolding format_uint
format_uint-StartsDigit n = digits-StartsDigit (suc n) n [] (omega arith)

parse_int_of_StartsDigit : (s : String) → StartsDigit s → parse_int s ≡ in_range (parse_uint s)
unfolding parse_int
parse_int_of_StartsDigit [] h = absurd h
parse_int_of_StartsDigit (c ∷ s) h = ground arith

-- Every int64 is read back from its decimal form.
pub parse_int-format_int : (n : ℤ) → IsInt64 n → parse_int (format_int n) ≡ some n
unfolding format_int
parse_int-format_int (pos n) h =
    parse_int_of_StartsDigit (format_uint n) (format_uint-StartsDigit n)
    ∙ rw parse_uint-format_uint (ground arith)
parse_int-format_int (negsuc n) h = unfold parse_int in rw parse_uint-format_uint (ground arith)

-- A decimal form is not empty.
pub format_int-ne : (n : ℤ) → format_int n ≢ []
unfolding format_int
format_int-ne (pos n) h = rw h at (format_uint-StartsDigit n)
format_int-ne (negsuc n) h = cons≢nil h
