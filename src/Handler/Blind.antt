-- ===== src/Handler/Blind.antt =====
-- An action on databases that hold the same rows: one rule for each way to build one.
pub mod Handlers
use mkrepo.Base.{Bool, true, false, ◌≡◌, refl, sym, ap, Result, ok, err, map_err, if◌then◌else◌}
use mathlib.Core.Path.{subst}
use mkrepo.Database.{Statement}
use mkrepo.Database.Db.{Db, run}
use mkrepo.Database.Db.Blind.{SameDb, run-SameDb}
use mkrepo.Database.Rows.Same.{IsBlind}
use mkrepo.Database.Constraints.{IsConsistent}
use mkrepo.Database.Steps.{Reach-IsConsistent}
use mkrepo.Handler.Action.{Action, pure, lift, query, continue, ◌>>=◌}
use mkrepo.Handler.Reaches.{IsStep, run-Reach}

-- Consistent tables that hold the same rows.
pub record AreAlike (db db' : Db) : Type 0 where
  pub consistent : IsConsistent db.tables
  pub consistent' : IsConsistent db'.tables
  pub same : SameDb db db'

-- The answers are the same, and the rows that are left.
pub record Agrees {E A : Type 0} (m : Action E A) : Type 0 where
  pub on : (db db' : Db) → AreAlike db db' → ((m db).0 ≡ (m db').0) × AreAlike (m db).1 (m db').1

pub run-AreAlike :
    {A : Type 0} (st : Statement A) (db db' : Db)
    → IsStep st
    → IsBlind st
    → AreAlike db db'
    → ((run st db).0 ≡ (run st db').0) × AreAlike (run st db).1 (run st db').1
run-AreAlike st db db' step blind h =
    let (answer, same) = run-SameDb st db db' blind h.consistent h.same in
    (
      answer,
      record {
        consistent = Reach-IsConsistent (run-Reach st step db) h.consistent;
        consistent' = Reach-IsConsistent (run-Reach st step db') h.consistent';
        same = same;
      },
    )

module _ {E A : Type 0} where
  pub Agrees-pure : (a : A) → Agrees {E = E} (pure a)
  unfolding pure
  Agrees-pure a = record { on = λ db db' h. (refl, h) }

  pub Agrees-lift : (r : Result E A) → Agrees (lift r)
  unfolding lift
  Agrees-lift r = record { on = λ db db' h. (refl, h) }

  pub Agrees-query : (st : Statement A) (e : E) → IsStep st → IsBlind st → Agrees (query st e)
  unfolding query
  Agrees-query st e step blind = record {
    on = λ db db' h.
        let (answer, same) = run-AreAlike st db db' step blind h in
        (ap (λ r. map_err (λ _. e) r) answer, same);
  }

  pub Agrees-if : (b : Bool) (m n : Action E A) → Agrees m → Agrees n → Agrees (if b then m else n)
  Agrees-if true m n first second = first
  Agrees-if false m n first second = second

  module _ {B : Type 0} where
    Agrees-continue :
        (r : Result E A) (f : A → Action E B) (db db' : Db)
        → ((a : A) → Agrees (f a))
        → AreAlike db db'
        → ((continue r f db).0 ≡ (continue r f db').0)
          × AreAlike (continue r f db).1 (continue r f db').1
    Agrees-continue (ok a) f db db' later h = (later a).on db db' h
    Agrees-continue (err e) f db db' later h = (refl, h)

    pub Agrees-bind :
        (m : Action E A) (f : A → Action E B)
        → Agrees m
        → ((a : A) → Agrees (f a))
        → Agrees (m >>= f)
    unfolding ◌>>=◌
    Agrees-bind m f first later = record {
      on = λ db db' h.
          let (answer, same) = first.on db db' h in
          subst
            (λ r.
              ((continue (m db).0 f (m db).1).0 ≡ (continue r f (m db').1).0)
              × AreAlike (continue (m db).0 f (m db).1).1 (continue r f (m db').1).1)
            answer (Agrees-continue (m db).0 f (m db).1 (m db').1 later same);
    }

pub ruleset agrees_rules = (Agrees-lift, Agrees-pure, Agrees-query, Agrees-if, Agrees-bind)
