-- ===== src/Base/Take.antt =====
-- The first items of a list, as `LIMIT` takes them.
use Prim.Native.Nat.{ℕ, zero, suc, ◌≤◌}
use mathlib.Core.Logic.{inl, inr}
use mathlib.Core.List.{List, [], ◌∷◌}
use native.Mathlib.Omega.{arith}
use mkrepo.Base.Lists.{All, Elem, length, take}

pub take-All : {A : Type 0} (P : A → Type 0) (n : ℕ) (xs : List A) → All P xs → All P (take n xs)
take-All P zero xs h = tt
take-All P (suc n) [] h = tt
take-All P (suc n) (x ∷ xs) h = (h.0, take-All P n xs h.1)

pub Elem-take : {A : Type 0} (n : ℕ) (xs : List A) (x : A) → Elem x (take n xs) → Elem x xs
Elem-take zero xs x e = elim e [ ]
Elem-take (suc n) [] x e = elim e [ ]
Elem-take (suc n) (y ∷ xs) x (inl same) = inl same
Elem-take (suc n) (y ∷ xs) x (inr later) = inr (Elem-take n xs x later)

pub length-take : {A : Type 0} (n : ℕ) (xs : List A) → length (take n xs) ≤ n
length-take zero xs = omega arith
length-take (suc n) [] = omega arith
length-take (suc n) (x ∷ xs) = omega (arith, length-take n xs)
