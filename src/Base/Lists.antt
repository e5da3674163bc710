-- ===== src/Base/Lists.antt =====
-- Lists walked by a Boolean test: the shape of the loops and of the database statements.
use Prim.Native.Nat.{ℕ, zero, suc}
use mathlib.Core.Path.{◌≡◌}
use mathlib.Core.Logic.{◌⊎◌}
use mathlib.Core.Bool.{Bool, false, ◌||◌}
use mathlib.Core.Option.{Option, none, some}
use mathlib.Core.List.{List, [], ◌∷◌}
use mkrepo.Base.Tests.{if◌then◌else◌}

module _ {ℓ κ} {A : Type ℓ} (P : A → Type κ) where
  abbrev pub All : List A → Type κ
  All [] = Unit
  All (x ∷ xs) = P x × All xs

-- `x` is one of the items.
abbrev pub Elem : {A : Type 0} → A → List A → Type 0
Elem x [] = ⊥
Elem x (y ∷ ys) = (x ≡ y) ⊎ Elem x ys

module _ {ℓ} {A : Type ℓ} where
  module _ (p : A → Bool) where
    abbrev pub any : List A → Bool
    any [] = false
    any (x ∷ xs) = p x || any xs

    abbrev pub find : List A → Option A
    find [] = none
    find (x ∷ xs) = if p x then some x else find xs

    -- The items that the test does not select.
    abbrev pub without : List A → List A
    without [] = []
    without (x ∷ xs) = let rest = without xs in if p x then rest else x ∷ rest

    -- The items that the test selects.
    abbrev pub only : List A → List A
    only [] = []
    only (x ∷ xs) = let rest = only xs in if p x then x ∷ rest else rest

    abbrev pub update : (A → A) → List A → List A
    update f [] = []
    update f (x ∷ xs) = (if p x then f x else x) ∷ update f xs

module _ {ℓ} {A : Type ℓ} where
  abbrev pub length : List A → ℕ
  length [] = 0
  length (x ∷ xs) = suc (length xs)

  abbrev pub take : ℕ → List A → List A
  take zero xs = []
  take (suc n) [] = []
  take (suc n) (x ∷ xs) = x ∷ take n xs
