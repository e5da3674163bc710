-- ===== src/Server/Traffic/Blind.antt =====
-- Two databases that hold the same rows, under the same traffic: nothing shows the order of the rows.
use mathlib.Core.Path.{subst}
use mkrepo.Base.{ℕ, sym, ◌≡◌, refl, ap, ◌∙◌, none, some, [], ◌∷◌, List}
use mkrepo.Base.{Option-cases, Result-cases, map_ok, inl, inr}
use mkrepo.Base.Dict.{lookup}
use mkrepo.Database.{delete_expired_oauth2_states, delete_expired_sessions}
use mkrepo.Database.Db.{Db, cleanup, run}
use mkrepo.Database.Steps.{drops_states, drops_sessions}
use mkrepo.Database.Constraints.{IsConsistent}
use mkrepo.Database.Rows.Same.{SameRows}
use mkrepo.Database.Rows.Laws.{
  delete_expired_oauth2_states-IsBlind, delete_expired_sessions-IsBlind,
}
use mkrepo.Service.Work.{History}
use mkrepo.Handler.{Request, session_cookie_name}
use mkrepo.Handler.Session.{authenticate_session}
use mkrepo.Handler.Login.{clear}
use mkrepo.Handler.Middleware.{with_cookie}
use mkrepo.Handler.Blind.{AreAlike, run-AreAlike}
use mkrepo.Handler.Blind.Handlers.{authenticate_session-Agrees}
use mkrepo.Server.{Site, RequestInputs, Serving, new_server}
use mkrepo.Server.Laws.{without_cookie, with_session, with_bad_session}
use mkrepo.Server.Traffic.{Event, serves, collects, traffic}
use mkrepo.Server.Blind.{SameRun, serve_mux-AgreesHere}

cleanup-AreAlike :
    (now later : ℕ) (db db' : Db)
    → AreAlike db db'
    → AreAlike (cleanup now later db).1 (cleanup now later db').1
unfolding cleanup
cleanup-AreAlike now later db db' same =
    let states =
      run-AreAlike (delete_expired_oauth2_states now) db db'
        (record { step = λ t t' h. drops_states now h }) (delete_expired_oauth2_states-IsBlind now)
        same in
    elim (Result-cases (run (delete_expired_oauth2_states now) db).0) [
      | inl (u, good) ↦
          rw (good, sym states.0 ∙ good)
            (run-AreAlike (delete_expired_sessions later) _ _
              (record { step = λ t t' h. drops_sessions later h })
              (delete_expired_sessions-IsBlind later) states.1).1
      | inr (e, bad) ↦ rw (bad, sym states.0 ∙ bad) states.1
    ]

module _ {Block Schema : Type 0} (site : Site Block Schema) where
  module _ (inputs : RequestInputs) where
    new_server-SameRun :
        (r : Request) (db db' : Db) (h : History)
        → AreAlike db db'
        → SameRun (new_server site inputs r db h) (new_server site inputs r db' h)
    new_server-SameRun r db db' h same =
        elim (Option-cases (lookup session_cookie_name r.cookies)) [
          | inl missing ↦
              on (without_cookie site inputs r db missing)
                (without_cookie site inputs r db' missing)
                (serve_mux-AgreesHere site inputs none r db db' h same)
          | inr (id, sent) ↦
              let (answer, later) =
                (authenticate_session-Agrees site.env inputs.auth id).on db db' same in
              elim (Result-cases (authenticate_session site.env inputs.auth id db).0) [
                | inl (account, good) ↦
                    on (with_session site inputs r db id account sent good)
                      (with_session site inputs r db' id account sent (sym answer ∙ good))
                      (serve_mux-AgreesHere site inputs (some account) r _ _ h later)
                | inr (e, bad) ↦
                    let run = serve_mux-AgreesHere site inputs none r _ _ h later in
                    on (with_bad_session site inputs r db id e sent bad)
                      (with_bad_session site inputs r db' id e sent (sym answer ∙ bad))
                      (record {
                        answer = ap (λ a. map_ok (with_cookie clear) a) run.answer;
                        history = run.history;
                        db = run.db;
                      })
              ]
        ]
      where
        on :
            {serving serving' : Serving}
            → new_server site inputs r db ≡ serving
            → new_server site inputs r db' ≡ serving'
            → SameRun (serving h) (serving' h)
            → SameRun (new_server site inputs r db h) (new_server site inputs r db' h)
        on {serving} e e' runs =
            subst (λ s. SameRun (s h) (new_server site inputs r db' h)) (sym e)
              (subst (λ s. SameRun (serving h) (s h)) (sym e') runs)

module _ {Block Schema : Type 0} where
  served-SameRun :
      (site : Site Block Schema) (inputs : RequestInputs) (r : Request) (db db' : Db)
      (h h' : History)
      → h ≡ h'
      → AreAlike db db'
      → SameRun (new_server site inputs r db h) (new_server site inputs r db' h')
  served-SameRun site inputs r db db' h h' e same =
      subst (λ k. SameRun (new_server site inputs r db h) (new_server site inputs r db' k)) e
        (new_server-SameRun site inputs r db db' h same)

  traffic-AreAlike :
      (events : List (Event Block Schema)) (db db' : Db) (h h' : History)
      → h ≡ h'
      → AreAlike db db'
      → ((traffic events db h).1 ≡ (traffic events db' h').1)
        × AreAlike (traffic events db h).0 (traffic events db' h').0
  unfolding traffic
  traffic-AreAlike [] db db' h h' e same = (e, same)
  traffic-AreAlike (serves site inputs r ∷ events) db db' h h' e same =
      let runs = served-SameRun site inputs r db db' h h' e same in
      traffic-AreAlike events _ _ _ _ runs.history runs.db
  traffic-AreAlike (collects now later ∷ events) db db' h h' e same =
      traffic-AreAlike events _ _ h h' e (cleanup-AreAlike now later db db' same)

  -- The order of the rows never shows. Of two databases with consistent tables, the same rows in each
  -- table and the same faults to come, each behind a server: after the same requests and cleanups on
  -- both, to each of which the remote services answer the same on both, any request has one answer and the same calls of the service, and leaves the same rows.
  pub new_server-traffic_blind :
      (events : List (Event Block Schema)) (site : Site Block Schema) (inputs : RequestInputs)
      (r : Request) (db db' : Db) (h : History)
      → IsConsistent db.tables
      → IsConsistent db'.tables
      → SameRows db.tables db'.tables
      → db.faults ≡ db'.faults
      → let (d, k) = traffic events db h in
        let (d', k') = traffic events db' h in
        let run = new_server site inputs r d k in
        let run' = new_server site inputs r d' k' in
        (run.answer ≡ run'.answer)
        × (run.history ≡ run'.history)
        × SameRows run.db.tables run'.db.tables
  new_server-traffic_blind events site inputs r db db' h c c' rows faults =
      let same : AreAlike db db' = record {
        consistent = c;
        consistent' = c';
        same = record { rows = rows; faults = faults };
      } in
      let (calls, later) = traffic-AreAlike events db db' h h refl same in
      let runs = served-SameRun site inputs r _ _ _ _ calls later in
      (runs.answer, runs.history, runs.db.same.rows)
