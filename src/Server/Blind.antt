-- ===== src/Server/Blind.antt =====
-- The routes on databases that hold the same rows: each answers alike.
use mkrepo.Base.{String, ◌≡◌, refl, ap, Option, none, some, All}
use mkrepo.Base.{ok}
use mkrepo.Base.Dict.{lookup}
use mkrepo.Database.Db.{Db}
use mkrepo.Service.Work.{Work, History}
use mkrepo.Handler.{Account, Request, Response}
use mkrepo.Handler.Login.{serve, either}
use mkrepo.Handler.Action.{Action}
use mkrepo.Handler.Middleware.{Handler, must_authenticate}
use mkrepo.Handler.Blind.{AreAlike, Agrees}
use mkrepo.Handler.Blind.Handlers.{
  login-Agrees, oauth2_callback-Agrees, delete_account_handler-Agrees, logout-AreAlike,
}
use mkrepo.Server.{
  Site, RequestInputs, Run, Serving, page, stored, worked, guarded, routes, handled, dispatched,
  chosen, serve_mux,
}
use mkrepo.Server.Serves.{lookup-All}

-- One answer and the same calls, and alike databases behind them.
pub record SameRun (run run' : Run) : Type 0 where
  pub answer : run.answer ≡ run'.answer
  pub history : run.history ≡ run'.history
  pub db : AreAlike run.db run'.db

abbrev pub AgreesHere : Handler Serving → Type 0
AgreesHere handler =
    (account : Option Account) (r : Request) (db db' : Db) (h : History)
    → AreAlike db db'
    → SameRun (handler account r db h) (handler account r db' h)

page-AgreesHere : (f : Request → Response) → AgreesHere (page f)
page-AgreesHere f account r db db' h same = record { answer = refl; history = refl; db = same }

stored-AgreesHere :
    (f : Request → Db → Response × Db)
    → ((r : Request) (db db' : Db)
        → AreAlike db db'
        → ((f r db).0 ≡ (f r db').0) × AreAlike (f r db).1 (f r db').1)
    → AgreesHere (stored f)
stored-AgreesHere f alike account r db db' h same =
    let (answer, later) = alike r db db' same in
    record { answer = ap ok answer; history = refl; db = later }

serve-AreAlike :
    (action : Action Response Response) (db db' : Db)
    → Agrees action
    → AreAlike db db'
    → ((serve action db).0 ≡ (serve action db').0)
      × AreAlike (serve action db).1 (serve action db').1
serve-AreAlike action db db' agrees same =
    let (answer, later) = agrees.on db db' same in (ap either answer, later)

module _ {Block Schema : Type 0} (site : Site Block Schema) where
  module _ (inputs : RequestInputs) where
    guarded-AgreesHere :
        (f : Account → Request → Db → Serving)
        → ((a : Account) → AgreesHere (λ account. f a))
        → AgreesHere (guarded site inputs f)
    unfolding must_authenticate
    guarded-AgreesHere f agrees none r db db' h same = record {
      answer = refl;
      history = refl;
      db = same;
    }
    guarded-AgreesHere f agrees (some a) r db db' h same = agrees a (some a) r db db' h same

    worked-AgreesHere :
        (f : Account → Request → Work Response) → AgreesHere (guarded site inputs (worked f))
    worked-AgreesHere f =
        guarded-AgreesHere (worked f)
          (λ a account r db db' h same. record { answer = refl; history = refl; db = same })

    infixr 5 ◌&◌
    abbrev ◌&◌ : {A B : Type 0} → A → B → A × B
    a & b = (a, b)

    routes-AgreesHere : All (λ entry. AgreesHere entry.1) (routes site inputs)
    unfolding routes
    routes-AgreesHere =
        page-AgreesHere _
        & page-AgreesHere _
        & stored-AgreesHere _
            (λ r db db'. serve-AreAlike _ db db' (login-Agrees site.env inputs.login r))
        & stored-AgreesHere _ logout-AreAlike
        & stored-AgreesHere _ (λ r db db'.
          serve-AreAlike _ db db' (oauth2_callback-Agrees site.env inputs.callback r))
        & guarded-AgreesHere _ (λ a account.
          stored-AgreesHere _
            (λ r db db'. serve-AreAlike _ db db' (delete_account_handler-Agrees site.env a))
            (some a))
        & worked-AgreesHere _
        & worked-AgreesHere _
        & page-AgreesHere _
        & page-AgreesHere _
        & worked-AgreesHere _
        & tt

    handled-AgreesHere :
        (o : Option (Handler Serving))
        → ((handler : Handler Serving) → o ≡ some handler → AgreesHere handler)
        → AgreesHere (handled site inputs o)
    unfolding handled
    handled-AgreesHere none agrees = page-AgreesHere _
    handled-AgreesHere (some handler) agrees = agrees handler refl

    dispatched-AgreesHere : (pattern : Option String) → AgreesHere (dispatched site inputs pattern)
    unfolding dispatched
    dispatched-AgreesHere none = page-AgreesHere _
    dispatched-AgreesHere (some pattern) =
        handled-AgreesHere (lookup pattern (routes site inputs)) λ handler found.
          lookup-All (λ key. AgreesHere) (routes site inputs) pattern handler routes-AgreesHere
            found

    pub serve_mux-AgreesHere : AgreesHere (serve_mux site inputs)
    unfolding serve_mux
    serve_mux-AgreesHere account r = dispatched-AgreesHere (chosen site inputs r) account r
