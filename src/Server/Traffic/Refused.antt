-- ===== src/Server/Traffic/Refused.antt =====
-- What a request comes to whose cookie names a session that is not in the tables.

use mkrepo.Base.{String, ◌≡◌, refl, ap, ◌∙◌, ◌⊎◌, Option, none, some, [], ok}
use mkrepo.Base.{inl, inr}
use mkrepo.Base.Dict.{lookup}
use mkrepo.Database.Constraints.{IsConsistent}
use mkrepo.Database.Db.{Db}
use mkrepo.Service.Work.{History}
use mkrepo.Handler.{Request, session_cookie_name, redirect}
use mkrepo.Handler.Session.{no_session, authenticate_session}
use mkrepo.Handler.Login.{clear}
use mkrepo.Handler.Middleware.{with_cookie, must_authenticate}
use mkrepo.Handler.Middleware.Laws.{login_page}
use mkrepo.Handler.Shut.{Shut}
use mkrepo.Handler.Shut.Handlers.{authenticate_session_closed}
use mkrepo.Database.Steps.{Step, Step-IsConsistent}
use mkrepo.Database.Interleaving.{Revokes}
use mkrepo.Database.Interleaving.Revoked.{Step-revoked}
use mkrepo.Server.{
  Site, RequestInputs, writer, routes, handled, dispatched, chosen, serve_mux, new_server,
}
use mkrepo.Server.Routes.Laws.{chosen_iff}
use mkrepo.Server.Laws.{with_bad_session}
use mkrepo.Server.Traffic.{WantsLogin}

pub revoked-Shut :
    (id : String) (db db' : Db) (st : Step db.tables db'.tables)
    → Revokes id st
    → IsConsistent db.tables
    → Shut id db'
revoked-Shut id db db' st revokes c = record {
  consistent = Step-IsConsistent st c;
  gone = Step-revoked id st c revokes;
}

-- The patterns behind `MustAuthenticate`.
abbrev IsGuarded : Option String → Type 0
IsGuarded pattern =
    (pattern ≡ some "GET /auth/delete-account")
    ⊎ (pattern ≡ some "GET /new")
    ⊎ (pattern ≡ some "POST /new")
    ⊎ (pattern ≡ some "POST /templates")

module _ {Block Schema : Type 0} (site : Site Block Schema) where
  -- The request is answered as one of nobody, with the cookie cleared, and at a route that wants a
  -- login by sending the browser to the login page, without a call of the service.
  abbrev pub IsRefused : RequestInputs → Request → Db → History → String → Type 0
  IsRefused inputs r db h id =
      let run = new_server site inputs r db h in
      (run
        ≡ writer.set_cookie clear
            (serve_mux site inputs none r (authenticate_session site.env inputs.auth id db).1) h)
      × (WantsLogin r
          → (run.answer ≡ ok (with_cookie clear (redirect (login_page r) []))) × (run.history ≡ h))

  guarded_route :
      (inputs : RequestInputs) (r : Request) (db : Db)
      → IsGuarded (chosen site inputs r)
      → serve_mux site inputs none r db ≡ writer.answer (redirect (login_page r) []) db
  unfolding serve_mux dispatched handled routes lookup must_authenticate
  guarded_route inputs r db route = elim route [
    | inl e ↦ rw (e, dispatched) refl
    | inr (inl e) ↦ rw (e, dispatched) refl
    | inr (inr (inl e)) ↦ rw (e, dispatched) refl
    | inr (inr (inr e)) ↦ rw (e, dispatched) refl
  ]

  IsGuarded-WantsLogin :
      (inputs : RequestInputs) (r : Request) → WantsLogin r → IsGuarded (chosen site inputs r)
  IsGuarded-WantsLogin inputs r wants =
      let (_, _, delete, get_new, post_new, _, _, post_templates) = chosen_iff site inputs r in
      elim wants [
        | inl (get, inl at_path) ↦ inl (delete.1 (get, at_path))
        | inl (get, inr at_path) ↦ inr (inl (get_new.1 (get, at_path)))
        | inr (post, inl at_path) ↦ inr (inr (inl (post_new.1 (post, at_path))))
        | inr (post, inr at_path) ↦ inr (inr (inr (post_templates.1 (post, at_path))))
      ]

  pub Shut-IsRefused :
      (inputs : RequestInputs) (r : Request) (db : Db) (h : History) (id : String)
      → Shut id db
      → lookup session_cookie_name r.cookies ≡ some id
      → IsRefused inputs r db h id
  Shut-IsRefused inputs r db h id shut sent =
      let bad = authenticate_session_closed site.env inputs.auth id db shut in
      let db' = (authenticate_session site.env inputs.auth id db).1 in
      let same = ap (λ s. s h) (with_bad_session site inputs r db id no_session sent bad) in
      (
        same,
        λ wants.
            let e =
              same
              ∙ ap (λ s. writer.set_cookie clear s h)
                  (guarded_route inputs r db' (IsGuarded-WantsLogin inputs r wants)) in
            (ap (λ run. run.answer) e, ap (λ run. run.history) e),
      )
