-- ===== src/Service/Work/Calls.antt =====
-- Which calls a piece of work makes, whatever they answer.

use mkrepo.Base.{◌≡◌, refl, ◌∙◌, ap, Option, none, some, List, [], ◌∷◌, ◌++◌, All}
use mkrepo.Base.{Result, ok, err}
use mkrepo.Service.Work.{
  World, Work, History, Effect, Failure, perform, done, fail, deref, continue, ◌>>=◌,
}

All-append : {A : Type 0} (P : A → Type 0) (xs ys : List A) → All P xs → All P ys → All P (xs ++ ys)
All-append P [] ys px py = py
All-append P (x ∷ xs) ys (p, px) py = (p, All-append P xs ys px py)

append-append : {A : Type 0} (xs ys zs : List A) → (xs ++ (ys ++ zs)) ≡ ((xs ++ ys) ++ zs)
append-append [] ys zs = refl
append-append (x ∷ xs) ys zs = ap (λ l. x ∷ l) (append-append xs ys zs)

module _ (P : Effect → Type 0) where
  -- The calls between two histories.
  abbrev pub Between : History → History → Type 0
  Between h h' = (calls : List Effect) × (h' ≡ calls ++ h) × All P calls

  -- Every call that it makes has the property, on every branch.
  pub record Calls {A : Type 0} (m : Work A) : Type 0 where
    pub between : (h : History) → Between h (m h).1

  Between-trans : (h h' h'' : History) → Between h h' → Between h' h'' → Between h h''
  Between-trans h h' h'' (first, e, p) (then, e', p') = (
    then ++ first,
    e' ∙ ap (λ l. then ++ l) e ∙ append-append then first h,
    All-append P then first p' p,
  )

module _ {P : Effect → Type 0} where
  pub perform-Calls : (world : World) (e : Effect) → P e → Calls P (perform world e)
  unfolding perform
  perform-Calls world e p = record { between = λ h. (e ∷ [], refl, (p, tt)) }

  module _ {A : Type 0} where
    pub done-Calls : (a : A) → Calls P (done a)
    unfolding done
    done-Calls a = record { between = λ h. ([], refl, tt) }

    pub fail-Calls : (e : Failure) → Calls P {A = A} (fail e)
    unfolding fail
    fail-Calls e = record { between = λ h. ([], refl, tt) }

    pub deref-Calls : (o : Option A) → Calls P (deref o)
    unfolding deref
    deref-Calls none = fail-Calls _
    deref-Calls (some a) = done-Calls a

    module _ {B : Type 0} where
      Calls-continue :
          (r : Result Failure A) (f : A → Work B) (h : History)
          → ((a : A) → Calls P (f a))
          → Between P h (continue r f h).1
      Calls-continue (ok a) f h next = (next a).between h
      Calls-continue (err e) f h next = ([], refl, tt)

      pub Calls-bind :
          (m : Work A) (f : A → Work B) → Calls P m → ((a : A) → Calls P (f a)) → Calls P (m >>= f)
      unfolding ◌>>=◌
      Calls-bind m f first next = record {
        between = λ h.
            Between-trans P h (m h).1 _ (first.between h) (Calls-continue (m h).0 f (m h).1 next);
      }

      pub deref->>=-Calls :
          (o : Option A) (a : A) (f : A → Work B)
          → o ≡ some a
          → Calls P (f a)
          → Calls P (deref o >>= f)
      unfolding deref done ◌>>=◌
      deref->>=-Calls o a f there next = record { between = λ h. rw there (next.between h) }

pub ruleset calls_rules = (perform-Calls, done-Calls, fail-Calls, deref-Calls, Calls-bind)
