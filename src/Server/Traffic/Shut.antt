-- ===== src/Server/Traffic/Shut.antt =====
-- A session that is not in the tables stays away through any traffic whose callbacks do not draw its ID.
use mathlib.Core.Path.{subst}
use mkrepo.Base.{String, sym, ◌≡◌, ◌≢◌, refl, Option, none, some, All, [], ◌∷◌, List}
use mkrepo.Base.{Option-cases, Result-cases, inl, inr}
use mkrepo.Base.Dict.{lookup}
use mkrepo.Database.Db.{Db, cleanup}
use mkrepo.Service.Work.{Work, History}
use mkrepo.Handler.{Account, Request, Response, session_cookie_name}
use mkrepo.Handler.Session.{authenticate_session}
use mkrepo.Handler.Pages.{mkrepo_form}
use mkrepo.Handler.Make.{mkrepo_create, register_template_handler}
use mkrepo.Handler.Middleware.{Handler, must_authenticate}
use mkrepo.Handler.Shut.{Shut, cleanup-Shut}
use mkrepo.Handler.Shut.Handlers.{
  login-Shut, logout-Shut, oauth2_callback-Shut, delete_account_handler-Shut,
  authenticate_session-Shut,
}
use mkrepo.Server.{
  Site, RequestInputs, Serving, worked, guarded, routes, handled, dispatched, chosen, serve_mux,
  new_server,
}
use mkrepo.Server.Laws.{without_cookie, with_session, with_bad_session}
use mkrepo.Server.Serves.{lookup-All}
use mkrepo.Server.Traffic.{Event, serves, collects, traffic, NeverDraws}

module _ (id : String) where
  -- The handler does not bring the session back.
  abbrev KeepsShut : Handler Serving → Type 0
  KeepsShut handler =
      (account : Option Account) (r : Request) (db : Db) (h : History)
      → Shut id db
      → Shut id (handler account r db h).db

  module _ {Block Schema : Type 0} (site : Site Block Schema) (inputs : RequestInputs) where
    guarded-KeepsShut :
        (f : Account → Request → Db → Serving)
        → ((a : Account) (r : Request) (db : Db) (h : History)
            → Shut id db
            → Shut id (f a r db h).db)
        → KeepsShut (guarded site inputs f)
    unfolding must_authenticate
    guarded-KeepsShut f keeps none r db h shut = shut
    guarded-KeepsShut f keeps (some a) r db h shut = keeps a r db h shut

    routes-KeepsShut :
        inputs.callback.session_id ≢ id → All (λ entry. KeepsShut entry.1) (routes site inputs)
    unfolding routes
    routes-KeepsShut other = (
      keep,
      (
        keep,
        (
          λ account r db h. (login-Shut site.env id inputs.login r).after db,
          (
            λ account r db h. logout-Shut id r db,
            (
              λ account r db h. (oauth2_callback-Shut site.env id inputs.callback r other).after db,
              (
                guarded-KeepsShut _
                    (λ a r db h. (delete_account_handler-Shut site.env id a).after db),
                (
                  untouched (λ a r h. (mkrepo_form site.env a r, h)),
                  (
                    untouched (mkrepo_create site.env site.world site.service),
                    (
                      keep,
                      (
                        keep,
                        (
                          untouched (register_template_handler site.world site.decode site.disk),
                          tt,
                        ),
                      ),
                    ),
                  ),
                ),
              ),
            ),
          ),
        ),
      ),
    )
      where
        keep : Option Account → Request → (db : Db) → History → Shut id db → Shut id db
        keep account r db h shut = shut

        untouched :
            (f : Account → Request → Work Response) → KeepsShut (guarded site inputs (worked f))
        untouched f = guarded-KeepsShut (worked f) (λ a r db h shut. shut)

    handled-KeepsShut :
        (o : Option (Handler Serving))
        → ((handler : Handler Serving) → o ≡ some handler → KeepsShut handler)
        → KeepsShut (handled site inputs o)
    unfolding handled
    handled-KeepsShut none keeps account r db h shut = shut
    handled-KeepsShut (some handler) keeps account r db h shut =
        keeps handler refl account r db h shut

    dispatched-KeepsShut :
        inputs.callback.session_id ≢ id
        → (pattern : Option String) → KeepsShut (dispatched site inputs pattern)
    unfolding dispatched
    dispatched-KeepsShut other none account r db h shut = shut
    dispatched-KeepsShut other (some pattern) account r db h shut =
        handled-KeepsShut (lookup pattern (routes site inputs))
          (λ handler found.
            lookup-All (λ key. KeepsShut) (routes site inputs) pattern handler
              (routes-KeepsShut other) found)
          account r db h shut

    serve_mux-KeepsShut : inputs.callback.session_id ≢ id → KeepsShut (serve_mux site inputs)
    unfolding serve_mux
    serve_mux-KeepsShut other account r db h shut =
        dispatched-KeepsShut other (chosen site inputs r) account r db h shut

    pub new_server-Shut :
        (r : Request) (db : Db) (h : History)
        → inputs.callback.session_id ≢ id
        → Shut id db
        → Shut id (new_server site inputs r db h).db
    new_server-Shut r db h other shut = elim (Option-cases (lookup session_cookie_name r.cookies)) [
      | inl missing ↦ same (without_cookie site inputs r db missing) (served none db shut)
      | inr (sent_id, sent) ↦
          let db' = (authenticate_session site.env inputs.auth sent_id db).1 in
          let shut' = (authenticate_session-Shut site.env id inputs.auth sent_id).after db shut in
          elim (Result-cases (authenticate_session site.env inputs.auth sent_id db).0) [
            | inl (account, good) ↦
                same (with_session site inputs r db sent_id account sent good)
                  (served (some account) db' shut')
            | inr (e, bad) ↦
                same (with_bad_session site inputs r db sent_id e sent bad) (served none db' shut')
          ]
    ]
      where
        served :
            (account : Option Account) (d : Db)
            → Shut id d
            → Shut id (serve_mux site inputs account r d h).db
        served account d now = serve_mux-KeepsShut other account r d h now

        same :
            {serving : Serving}
            → new_server site inputs r db ≡ serving
            → Shut id (serving h).db
            → Shut id (new_server site inputs r db h).db
        same e now = subst (λ s. Shut id (s h).db) (sym e) now

  pub traffic-Shut :
      {Block Schema : Type 0} (events : List (Event Block Schema)) (db : Db) (h : History)
      → NeverDraws id events
      → Shut id db
      → Shut id (traffic events db h).0
  unfolding traffic
  traffic-Shut [] db h never shut = shut
  traffic-Shut (serves site inputs r ∷ events) db h (other, never) shut =
      let run = new_server site inputs r db h in
      traffic-Shut events run.db run.history never (new_server-Shut site inputs r db h other shut)
  traffic-Shut (collects now later ∷ events) db h never shut =
      traffic-Shut events (cleanup now later db).1 h never (cleanup-Shut id now later db shut)
