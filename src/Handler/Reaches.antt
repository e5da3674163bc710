-- ===== src/Handler/Reaches.antt =====
-- What an action does to the tables is a sequence of statements: one rule for each way to build an
-- action.
use mathlib.Core.Path.{subst}
use mkrepo.Base.{sym, inl, inr, Bool, true, false, Result, ok, err, if◌then◌else◌}
use mkrepo.Database.{Tables, Statement}
use mkrepo.Database.Db.{Db, run}
use mkrepo.Database.Db.Laws.{run-cases}
use mkrepo.Database.Steps.{Leaves, Step, Reach, here, next, Reach-trans}
use mkrepo.Handler.Action.{Action, pure, lift, query, continue, ◌>>=◌}

pub record Reaches {E A : Type 0} (m : Action E A) : Type 0 where
  pub at : (db : Db) → Reach db.tables (m db).1.tables

-- The statement is one of the steps.
pub record IsStep {A : Type 0} (st : Statement A) : Type 0 where
  pub step : (t t' : Tables) → Leaves (st t) t' → Step t t'

pub run-Reach :
    {A : Type 0} (st : Statement A) → IsStep st → (db : Db) → Reach db.tables (run st db).1.tables
run-Reach st is db = elim (run-cases st db) [
  | inl leaves ↦ next here (is.step _ _ leaves)
  | inr same ↦ subst (Reach db.tables) (sym same) here
]

module _ {E A : Type 0} where
  pub Reaches-lift : (r : Result E A) → Reaches (lift r)
  unfolding lift
  Reaches-lift r = record { at = λ db. here }

  pub Reaches-pure : (a : A) → Reaches {E = E} (pure a)
  unfolding pure
  Reaches-pure a = record { at = λ db. here }

  pub Reaches-query : (st : Statement A) (e : E) → IsStep st → Reaches (query st e)
  unfolding query
  Reaches-query st e is = record { at = run-Reach st is }

  pub Reaches-if :
      (b : Bool) (m n : Action E A) → Reaches m → Reaches n → Reaches (if b then m else n)
  Reaches-if true m n km kn = km
  Reaches-if false m n km kn = kn

module _ {E A B : Type 0} where
  Reaches-continue :
      (r : Result E A) (f : A → Action E B) (db : Db)
      → ((a : A) → Reaches (f a))
      → Reach db.tables (continue r f db).1.tables
  Reaches-continue (ok a) f db kf = (kf a).at db
  Reaches-continue (err e) f db kf = here

  pub Reaches-bind :
      (m : Action E A) (f : A → Action E B)
      → Reaches m
      → ((a : A) → Reaches (f a))
      → Reaches (m >>= f)
  unfolding ◌>>=◌
  Reaches-bind m f km kf = record {
    at = λ db. Reach-trans (km.at db) (Reaches-continue (m db).0 f (m db).1 kf);
  }

pub ruleset reaches_rules = (Reaches-lift, Reaches-pure, Reaches-query, Reaches-if, Reaches-bind)
