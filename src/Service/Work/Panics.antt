-- ===== src/Service/Work/Panics.antt =====
-- Calls that do not panic.
use mkrepo.Base.{◌≡◌, ap, ◌≢◌, ◌∙◌, Option, some}
use mkrepo.Base.{Result, ok, err, Result-cases, Bool-cases, inl, inr}
use mkrepo.Service.Work.{World, Work, History, Effect, panic}
use mkrepo.Service.Work.{perform, done, deferring, deref, ◌>>=◌}

-- Whatever was done before, the calls end, and not in a panic.
abbrev pub NoPanic : {A : Type 0} → Work A → Type 0
NoPanic m = (h : History) → (m h).0 ≢ err panic

err-injective : {E A : Type 0} {x y : E} → ◌≡◌ {A = Result E A} (err x) (err y) → x ≡ y
err-injective {E} {A} {x} h = ap value h
  where
    value : Result E A → E
    value (ok a) = x
    value (err e) = e

module _ {A : Type 0} where
  pub done-NoPanic : (a : A) → NoPanic (done a)
  unfolding done
  done-NoPanic a h e = cc

  pub deferring-NoPanic :
      (world : World) (e : Effect) (m : Work A) → NoPanic m → NoPanic (deferring world e m)
  unfolding deferring
  deferring-NoPanic world e m safe h = safe h

  pub >>=-NoPanic :
      {B : Type 0} (m : Work A) (f : A → Work B)
      → NoPanic m
      → ((a : A) → NoPanic (f a))
      → NoPanic (m >>= f)
  unfolding ◌>>=◌
  >>=-NoPanic m f safe next h e = elim (Result-cases (m h).0) [
    | inl (a, good) ↦ next a (m h).1 (rw good at e)
    | inr (x, bad) ↦ let same = rw bad at e in safe h (bad ∙ ap err (err-injective same))
  ]

  pub deref->>=-NoPanic :
      {B : Type 0} (o : Option A) (a : A) (f : A → Work B)
      → o ≡ some a
      → NoPanic (f a)
      → NoPanic (deref o >>= f)
  unfolding deref done ◌>>=◌
  deref->>=-NoPanic o a f there safe h e = safe h (rw there at e)

pub perform-NoPanic : (world : World) (e : Effect) → NoPanic (perform world e)
unfolding perform
perform-NoPanic world e h bad = elim (Bool-cases (world.succeeds h e)) [
  | inl fine ↦ let k = rw fine at bad in cc
  | inr fails ↦ let k = rw fails at bad in cc
]
