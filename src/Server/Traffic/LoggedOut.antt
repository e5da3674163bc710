-- ===== src/Server/Traffic/LoggedOut.antt =====
-- After a logout the cookie opens nothing any more.
use mathlib.Core.Path.{subst}
use mkrepo.Base.{String, ◌≡◌, refl, sym, ap, ◌∙◌, Option, none, some, List, ok}
use mkrepo.Base.{inl, inr, Result-cases}
use mkrepo.Base.Dict.{lookup}
use mkrepo.Database.{delete_session}
use mkrepo.Database.Constraints.{IsConsistent}
use mkrepo.Database.Db.{Db, run}
use mkrepo.Database.Db.Laws.{run-ok}
use mkrepo.Service.Work.{History}
use mkrepo.Handler.{Account, Request, session_cookie_name}
use mkrepo.Handler.Session.{authenticate_session}
use mkrepo.Handler.Integrity.{handlers-IsConsistent}
use mkrepo.Handler.Login.{logout}
use mkrepo.Handler.Shut.{Shut}
use mkrepo.Database.Steps.{Leaves-ok, deletes_session}
use mkrepo.Server.{Site, RequestInputs, routes, handled, dispatched, chosen, serve_mux, new_server}
use mkrepo.Server.Mux.Pattern.Laws.{Allows}
use mkrepo.Server.Routes.Laws.{chosen_iff}
use mkrepo.Server.Laws.{with_session, with_bad_session}
use mkrepo.Server.Traffic.{Event, traffic, NeverDraws}
use mkrepo.Server.Traffic.Refused.{IsRefused, revoked-Shut, Shut-IsRefused}
use mkrepo.Server.Traffic.Shut.{traffic-Shut}

-- The statement of the logout leaves no session with the ID.
logout-Shut_after :
    (id : String) (r : Request) (db : Db)
    → IsConsistent db.tables
    → lookup session_cookie_name r.cookies ≡ some id
    → (run (delete_session id) db).0 ≡ ok tt
    → Shut id (logout r db).1
unfolding logout
logout-Shut_after id r db c sent deleted =
    let db' = (run (delete_session id) db).1 in
    let leaves = Leaves-ok (run-ok (delete_session id) db (λ i. (deleted i, db'))) in
    rw (sent, logout) (revoked-Shut id db db' (deletes_session id leaves) refl c)

module _ {Block Schema : Type 0} (site : Site Block Schema) where
  logout_route :
      (inputs : RequestInputs) (account : Option Account) (r : Request) (db : Db) (h : History)
      → chosen site inputs r ≡ some "GET /auth/logout"
      → (serve_mux site inputs account r db h).db ≡ (logout r db).1
  unfolding serve_mux dispatched handled routes lookup
  logout_route inputs account r db h route = rw (route, dispatched) refl

  -- The logout is answered by the handler behind the middleware, for an account or for nobody.
  logout_run :
      (inputs : RequestInputs) (r : Request) (db : Db) (h : History) (id : String)
      → lookup session_cookie_name r.cookies ≡ some id
      → chosen site inputs r ≡ some "GET /auth/logout"
      → (new_server site inputs r db h).db
        ≡ (logout r (authenticate_session site.env inputs.auth id db).1).1
  logout_run inputs r db h id sent route =
      let db' = (authenticate_session site.env inputs.auth id db).1 in
      elim (Result-cases (authenticate_session site.env inputs.auth id db).0) [
        | inl (account, good) ↦
            ap (λ s. (s h).db) (with_session site inputs r db id account sent good)
            ∙ logout_route inputs (some account) r db' h route
        | inr (e, bad) ↦
            ap (λ s. (s h).db) (with_bad_session site inputs r db id e sent bad)
            ∙ logout_route inputs none r db' h route
      ]

  -- On consistent tables, and once a GET or HEAD of /auth/logout has deleted its session in the database,
  -- the cookie opens nothing any more, whatever requests and cleanups come in between, whatever the
  -- remote services answer to each of them and whatever faults the database has, as long as no login
  -- draws the same ID: any later request with it is answered as one
  -- of nobody, with the cookie cleared, and at a route that wants a login by sending the browser to
  -- the login page, without a call of the service.
  pub new_server_logged_out :
      (other : Site Block Schema) (inputs later : RequestInputs) (r again : Request) (db : Db)
      (h : History) (id : String) (events : List (Event Block Schema))
      → IsConsistent db.tables
      → lookup session_cookie_name r.cookies ≡ some id
      → Allows "GET" r.method
      → r.path ≡ "/auth/logout"
      → (run (delete_session id) (authenticate_session site.env inputs.auth id db).1).0 ≡ ok tt
      → NeverDraws id events
      → lookup session_cookie_name again.cookies ≡ some id
      → let run₁ = new_server site inputs r db h in
        let (db₂, h₂) = traffic events run₁.db run₁.history in IsRefused other later again db₂ h₂ id
  new_server_logged_out other inputs later r again db h id events c sent get at_path deleted never
        kept =
      let route = (chosen_iff site inputs r).1.1 (get, at_path) in
      let run₁ = new_server site inputs r db h in
      let (db₂, h₂) = traffic events run₁.db run₁.history in
      let db' = (authenticate_session site.env inputs.auth id db).1 in
      let c' = (handlers-IsConsistent site.env db c).0 inputs.auth id in
      let shut₁ : Shut id run₁.db =
        subst (Shut id) (sym (logout_run inputs r db h id sent route))
          (logout-Shut_after id r db' c' sent deleted) in
      let shut₂ = traffic-Shut id events run₁.db run₁.history never shut₁ in
      Shut-IsRefused other later again db₂ h₂ id shut₂ kept
