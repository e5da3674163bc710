-- ===== src/Base/Program.antt =====
-- A piece of a program over a state, that may end early with an error, and its deferred calls.

use mkrepo.Base.Results.{Result, ok, err}

abbrev pub Program : Type 0 → Type 0 → Type 0 → Type 0
Program S E A = S → Result E A × S

module _ {S E A : Type 0} where
  unfoldable pub finish : A → Program S E A
  finish a s = (ok a, s)

  unfoldable pub attempt : Result E A → Program S E A
  attempt r s = (r, s)

  -- `defer f()`
  unfoldable pub deferring : (S → S) → Program S E A → Program S E A
  deferring f m s = let (r, s') = m s in (r, f s')

  on_err : (S → S) → Result E A → S → S
  on_err f (ok a) s = s
  on_err f (err e) s = f s

  -- `defer func() { if err != nil { f() } }()`
  unfoldable pub deferring_on_err : (S → S) → Program S E A → Program S E A
  unfolding on_err
  deferring_on_err f m s = let (r, s') = m s in (r, on_err f r s')

-- A call that only changes the state.
unfoldable pub modify : {S E : Type 0} → (S → S) → Program S E Unit
modify f s = (ok tt, f s)

module _ {S E A B : Type 0} where
  continue : Result E A → (A → Program S E B) → Program S E B
  continue (ok a) f s = f a s
  continue (err e) f s = (err e, s)

  infixl 5 ◌>>=◌ ◌>>◌
  unfoldable pub ◌>>=◌ : Program S E A → (A → Program S E B) → Program S E B
  unfolding continue
  ◌>>=◌ m f s = let (r, s') = m s in continue r f s'

  abbrev pub ◌>>◌ : Program S E A → Program S E B → Program S E B
  m >> k = m >>= λ _. k
