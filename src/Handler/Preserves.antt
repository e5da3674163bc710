-- ===== src/Handler/Preserves.antt =====
-- What an action keeps true of the database, whether it succeeds or not.
use mkrepo.Base.{Bool, true, false, if◌then◌else◌, Result, ok, err}
use mkrepo.Database.{Statement}
use mkrepo.Database.Db.{Db, run}
use mkrepo.Handler.Action.{Action, pure, lift, query, continue, ◌>>=◌}

module _ (I : Db → Type 0) where
  -- The property of the database holds after the action if it holds before.
  pub record Preserves {E A : Type 0} (action : Action E A) : Type 0 where
    pub after : (db : Db) → I db → I (action db).1

  -- It holds after the statement, whether that runs or fails.
  pub record StatementPreserves {A : Type 0} (st : Statement A) : Type 0 where
    pub after : (db : Db) → I db → I (run st db).1

module _ {I : Db → Type 0} {E A : Type 0} where
  pub Preserves-pure : (value : A) → Preserves I {E = E} (pure value)
  unfolding pure
  Preserves-pure value = record { after = λ db now. now }

  pub Preserves-lift : (result : Result E A) → Preserves I (lift result)
  unfolding lift
  Preserves-lift result = record { after = λ db now. now }

  pub Preserves-query :
      (st : Statement A) (failure : E) → StatementPreserves I st → Preserves I (query st failure)
  unfolding query
  Preserves-query st failure kept = record { after = kept.after }

  pub Preserves-if :
      (b : Bool) (m n : Action E A)
      → Preserves I m
      → Preserves I n
      → Preserves I (if b then m else n)
  Preserves-if true m n first second = first
  Preserves-if false m n first second = second

  module _ {B : Type 0} where
    Preserves-continue :
        (result : Result E A) (rest : A → Action E B) (db : Db)
        → ((value : A) → Preserves I (rest value))
        → I db
        → I (continue result rest db).1
    Preserves-continue (ok value) rest db later now = (later value).after db now
    Preserves-continue (err e) rest db later now = now

    pub Preserves-bind :
        (action : Action E A) (rest : A → Action E B)
        → Preserves I action
        → ((value : A) → Preserves I (rest value))
        → Preserves I (action >>= rest)
    unfolding ◌>>=◌
    Preserves-bind action rest first later = record {
      after =
          λ db now. Preserves-continue (action db).0 rest (action db).1 later (first.after db now);
    }

pub ruleset preserves_rules =
    (Preserves-lift, Preserves-pure, Preserves-query, Preserves-if, Preserves-bind)
