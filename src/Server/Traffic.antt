-- ===== src/Server/Traffic.antt =====
-- internal/server/server.go and the collector that cmd/mkrepo/main.go starts: what requests and cleanups
-- one after the other leave of the database.
pub mod Shut
pub mod Refused
pub mod LoggedOut
pub mod Deleted
pub mod Blind
pub mod Login
mod Tests
mod LoginTests
use mkrepo.Base.{ℕ, String, Option, some, none, List, [], ◌∷◌, ◌≡◌, ◌≢◌, ◌⊎◌}
use mkrepo.Database.Db.{Db, cleanup}
use mkrepo.Service.Work.{History}
use mkrepo.Handler.{Request}
use mkrepo.Server.Mux.Pattern.Laws.{Allows}
use mkrepo.Server.{Site, RequestInputs, Run, new_server}

-- A request is served, with what its handlers read and draw, or the collector ticks, with the times of
-- its two statements. Each request has a site of its own, so that what the remote services answer, and
-- whether a token has expired, may be another thing each time.
pub data Event (Block Schema : Type 0) : Type 0 where
  serves : Site Block Schema → RequestInputs → Request → Event Block Schema
  collects : ℕ → ℕ → Event Block Schema

module _ {Block Schema : Type 0} where
  -- A request that panics ends alone: `net/http` recovers it and the server goes on.
  unfoldable pub traffic : List (Event Block Schema) → Db → History → Db × History
  traffic [] db h = (db, h)
  traffic (serves site inputs r ∷ events) db h =
      let run = new_server site inputs r db h in traffic events run.db run.history
  traffic (collects now later ∷ events) db h = traffic events (cleanup now later db).1 h

  -- No callback of the events draws the ID for a session.
  abbrev pub NeverDraws : String → List (Event Block Schema) → Type 0
  NeverDraws id [] = Unit
  NeverDraws id (serves site inputs r ∷ events) =
      (inputs.callback.session_id ≢ id) × NeverDraws id events
  NeverDraws id (collects now later ∷ events) = NeverDraws id events

-- The requests for the routes behind `MustAuthenticate`.
abbrev pub WantsLogin : Request → Type 0
WantsLogin r =
    (Allows "GET" r.method × ((r.path ≡ "/auth/delete-account") ⊎ (r.path ≡ "/new")))
    ⊎ (Allows "POST" r.method × ((r.path ≡ "/new") ⊎ (r.path ≡ "/templates")))
